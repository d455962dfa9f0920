-- ===== src/Reticulum/Connection/Totals.antt =====
-- How many bytes are pending on a connection, and under which ids.
use call_backend.Prelude.{
  ℕ, ◌+◌, ◌≤◌, ◌≡◌, refl, ap, Option, none, some, List, [], ◌∷◌, arith, nat_eq, length,
}
use call_backend.Dict
use call_backend.Dict.{
  Dict, get, put, get-put, get-remove, length-put-le, length-put-present, length-remove-le,
}
use call_backend.Reticulum.Connection.{PendingMessage, cancel_timers}

abbrev pub total : Dict ℕ PendingMessage → ℕ
total [] = 0
total ((id, p) ∷ d) = length p.frame + total d

abbrev pub frame_at : Option PendingMessage → Option (List ℕ)
frame_at none = none
frame_at (some p) = some p.frame

pub total-put-le :
    (d : Dict ℕ PendingMessage) (id : ℕ) (p : PendingMessage)
    → total (put d id p) ≤ total d + length p.frame
unfolding put
total-put-le [] id p = omega arith
total-put-le ((j, q) ∷ d) id p = ground (arith, total-put-le d id p)

pub total-put_same :
    (d : Dict ℕ PendingMessage) (id : ℕ) (p q : PendingMessage)
    → get d id ≡ some q
    → p.frame ≡ q.frame
    → total (put d id p) ≡ total d
unfolding get put
total-put_same [] id p q h e = absurd (ground arith)
total-put_same ((j, r) ∷ d) id p q h e = ground (arith, ap length e, total-put_same d id p q)

pub total-remove-le : (d : Dict ℕ PendingMessage) (id : ℕ) → total (Dict.remove d id) ≤ total d
unfolding Dict.remove
total-remove-le [] id = omega arith
total-remove-le ((j, q) ∷ d) id = ground (arith, total-remove-le d id)

pub total-remove :
    (d : Dict ℕ PendingMessage) (id : ℕ) (p : PendingMessage)
    → get d id ≡ some p
    → total (Dict.remove d id) + length p.frame ≤ total d
unfolding get Dict.remove
total-remove [] id p h = absurd (ground arith)
total-remove ((j, q) ∷ d) id p h = ground (arith, total-remove-le d id, total-remove d id p)

pub total-cancel_timers : (d : Dict ℕ PendingMessage) → total (cancel_timers d) ≡ total d
unfolding cancel_timers
total-cancel_timers [] = refl
total-cancel_timers ((j, q) ∷ d) = ap (λ n. length q.frame + n) (total-cancel_timers d)

pub length-cancel_timers : (d : Dict ℕ PendingMessage) → length (cancel_timers d) ≡ length d
unfolding cancel_timers
length-cancel_timers [] = refl
length-cancel_timers ((j, q) ∷ d) = omega (arith, length-cancel_timers d)

pub get-cancel_timers :
    (d : Dict ℕ PendingMessage) (id : ℕ) → frame_at (get (cancel_timers d) id) ≡ frame_at (get d id)
unfolding get cancel_timers
get-cancel_timers [] id = refl
get-cancel_timers ((j, q) ∷ d) id = ground (arith, get-cancel_timers d id)
