-- ===== src/Reticulum/Server/Invariant/Histories.antt =====
-- The invariant in every state that the server's callbacks reach.
use call_backend.Prelude.{nat_eq, string_eq}
use call_backend.Reticulum.Server.{Server}
