-- ===== src/Auth/Identity/Normal.antt =====
-- The normal form of a Q-App identity, which `normalize_qapp_identity` of
-- src/qapp_backend/auth/qortal_identity.py keeps as it is.
use call_backend.Prelude.{
  ℕ, ◌≤◌, String, true, not, ◌&&◌, ◌≡◌, ◌≢◌, subst, ◌∙◌, ap, some, List, [], ◌∷◌, ◌⊎◌, arith, leb,
  nat_eq, string_eq, ==_iff, ◌==◌, length, codes, all, ok,
}
use call_backend.Prelude.Raising.{require}
use call_backend.Prelude.Chains.{chain, required, same_result}
use call_backend.Value.{text, as_text}
use call_backend.Auth.Identity.{Identity, Outside, is_service_char, normalize_qapp_identity}

-- A capital letter, a digit or an underscore.
abbrev pub ServiceChar : ℕ → Type 0
ServiceChar c = ((65 ≤ c) × (c ≤ 90)) ⊎ ((48 ≤ c) × (c ≤ 57)) ⊎ (c ≡ 95)

abbrev pub AllServiceChars : List ℕ → Type 0
AllServiceChars [] = Unit {0}
AllServiceChars (c ∷ cs) = ServiceChar c × AllServiceChars cs

pub record Normal (out : Outside) (i : Identity) : Type 0 where
  pub name_kept : out.lower (out.strip i.name) ≡ i.name
  pub name_there : i.name ≢ ""
  pub name_short : length (codes i.name) ≤ 128
  pub service_kept : out.upper (out.strip i.service) ≡ i.service
  pub service_there : 1 ≤ length (codes i.service)
  pub service_short : length (codes i.service) ≤ 32
  pub service_chars : AllServiceChars (codes i.service)

service_char : (c : ℕ) → is_service_char c ≡ true → ServiceChar c
unfolding is_service_char
service_char c h = ground (arith, h)

all_service_chars : (cs : List ℕ) → all is_service_char cs ≡ true → AllServiceChars cs
all_service_chars [] h = tt
all_service_chars (c ∷ cs) h =
    (service_char c (ground (arith, h)), all_service_chars cs (ground (arith, h)))

-- What is normalised to itself is in normal form.
pub normalized-Normal :
    (out : Outside) (name service : String) (i : Identity)
    → normalize_qapp_identity out (some (text name)) (some (text service)) ≡ ok i
    → i.name ≡ name
    → i.service ≡ service
    → Normal out i
unfolding normalize_qapp_identity as_text
normalized-Normal out name service i h same_name same_service =
    let normal : Identity = record {
      name = out.lower (out.strip name);
      service = out.upper (out.strip service);
    } in
    chain
      (require (not (normal.name == "") && leb (length (codes normal.name)) 128)
        "Q-App name is invalid")
      _ i _
      (λ _ named.
        chain
          (require
            (all is_service_char (codes normal.service)
              && leb 1 (length (codes normal.service))
              && leb (length (codes normal.service)) 32)
            "Q-App service is invalid")
          _ i _
          λ _ served done.
            let is : normal ≡ i = same_result normal i done in
            let a = required _ _ _ named in
            let b = required _ _ _ served in
            record {
              name_kept = ap (λ n. out.lower (out.strip n)) same_name ∙ ap (λ x. x.name) is;
              name_there =
                  subst (λ x. x.name ≢ "") is λ e. ground (arith, a, (==_iff normal.name "").1 e);
              name_short = subst (λ x. length (codes x.name) ≤ 128) is (ground (arith, a));
              service_kept =
                  ap (λ n. out.upper (out.strip n)) same_service ∙ ap (λ x. x.service) is;
              service_there = subst (λ x. 1 ≤ length (codes x.service)) is (ground (arith, b));
              service_short = subst (λ x. length (codes x.service) ≤ 32) is (ground (arith, b));
              service_chars =
                  subst (λ x. AllServiceChars (codes x.service)) is
                    (all_service_chars (codes normal.service) (ground (arith, b)));
            })
      h
