-- ===== src/Reticulum/Server/Invariant/Removing.antt =====
-- Sessions that leave the server: their transport is cut off, and no index leads to them any more.
use call_backend.Prelude.{
  ℕ, String, Bool, true, false, not, ◌≡◌, ◌≢◌, refl, sym, subst, ◌∙◌, ap, Option, none, some, List,
  ◌∷◌, if◌then◌else◌, ◌==◌, string_eq, ==_iff, arith, length-filter-le, ◌⊎◌, inl, inr, is_some,
}
use call_backend.Dict
use call_backend.Dict.{Dict, get, put, retain, get-put, get-remove}
use call_backend.Reticulum.Sessions.{Session, SessionManager}
use call_backend.Transport.Service.Ownership.{attached-invalidate}
use call_backend.Reticulum.Server.{
  Link, Limits, Server, logical_id_of, cut_transport, discard_id, without_id, unlink, remove_named,
  indexed_by, remove_indexes, is_text,
}
use call_backend.Reticulum.Server.Invariant.{Sound, LinkFits, AllFit, Known}

-- A write of a link that fits.
pub put-AllFit :
    (limits : Limits) (links : Dict String Link) (c : String) (l : Link)
    → AllFit limits links
    → LinkFits limits l
    → AllFit limits (put links c l)
put-AllFit limits links c l all new d k h = by_key (c == d) refl (sym (get-put links c l d) ∙ h)
  where
    by_key :
        (b : Bool) → (c == d) ≡ b → (if b then some l else get links d) ≡ some k → LinkFits limits k
    by_key true same e = subst (LinkFits limits) (ground arith) new
    by_key false other e = all d k e

pub discard_id-LinkFits :
    (limits : Limits) (logical_id : String) (l : Link)
    → LinkFits limits l
    → LinkFits limits (discard_id logical_id l)
unfolding discard_id
discard_id-LinkFits limits logical_id l f = record {
  ids =
      omega (arith, f.ids, length-filter-le (λ i. not (i == logical_id)) l.logical_connection_ids);
  times = f.times;
}

pub unlink-AllFit :
    (limits : Limits) (logical_id : String) (o : Option String) (links : Dict String Link)
    → AllFit limits links
    → AllFit limits (unlink logical_id o links)
unlink-AllFit limits logical_id none links all = all
unlink-AllFit limits logical_id (some c) links all = by_link (get links c) refl
  where
    by_link : (o : Option Link) → get links c ≡ o → AllFit limits (without_id logical_id c o links)
    by_link none e = all
    by_link (some l) e =
        put-AllFit limits links c (discard_id logical_id l) all
          (discard_id-LinkFits limits logical_id l (all c l e))

-- A session that is about to go and is not the one of the entry.
narrowed :
    (s : Session) (gone : List Session) (m : SessionManager) (id : String) (x : Session)
    → Known (s ∷ gone) m id x
    → Known gone m id x ⊎ ((s ≡ x) × (x.session_id ≡ id))
narrowed s gone m id x (inl here) = inl (inl here)
narrowed s gone m id x (inr (inl same, named)) = inr (same, named)
narrowed s gone m id x (inr (inr later, named)) = inl (inr (later, named))

-- After the look-up in the index without an entry of `s`.
entry_kept :
    (index : Dict String String) (logical_id own id : String) (at : String)
    → get (if is_some (get index logical_id) own then Dict.remove index logical_id else index) at
      ≡ some id
    → (get index at ≡ some id) × (logical_id ≡ at → own ≢ id)
entry_kept index logical_id own id at h = by_index (get index logical_id) refl h
  where
    by_index :
        (o : Option String)
        → get index logical_id ≡ o
        → get (if is_some o own then Dict.remove index logical_id else index) at ≡ some id
        → (get index at ≡ some id) × (logical_id ≡ at → own ≢ id)
    by_index none e k = (k, λ same _. absurd (ground arith))
    by_index (some j) e k = (
      ground (arith, get-remove index logical_id at),
      λ same owned.
          absurd
            (ground (arith, get-remove index logical_id at, ==_iff j own, ==_iff logical_id at)),
    )

cut_served :
    (digest : String → String) (now : ℕ) (s : Session) (gone : List Session) (v : Server)
    → Sound (s ∷ gone) v
    → (id transport : String)
    → get (cut_transport digest now s v).transport.attached id ≡ some transport
    → (x : Session) × Known gone v.manager id x
unfolding cut_transport
cut_served digest now s gone v sound id transport h =
    let left =
      ap (λ d. get d id)
        (sym (
          attached-invalidate digest s.session_id (is_text (get s.metadata "call_room_id")) now
            v.transport))
      ∙ h in
    let (x, known) =
      sound.served id transport
        (ground (arith, get-remove v.transport.attached s.session_id id, left)) in
    elim (narrowed s gone v.manager id x known) [
      | inl still ↦ (x, still)
      | inr (same, named) ↦ absurd (
          ground (
            arith,
            get-remove v.transport.attached s.session_id id,
            left,
            ap (λ y. y.session_id) same,
            ==_iff s.session_id id,
          ))
    ]

-- A session that is cut off and taken out of the indexes leaves the others sound.
pub remove_indexes-Sound :
    (digest : String → String) (now : ℕ) (s : Session) (gone : List Session) (v : Server)
    → Sound (s ∷ gone) v
    → Sound gone (remove_indexes s (cut_transport digest now s v))
unfolding remove_indexes remove_named cut_transport
remove_indexes-Sound digest now s gone v sound = by_id (logical_id_of s) refl
  where
    by_id :
        (o : Option String)
        → logical_id_of s ≡ o
        → Sound gone (indexed_by o s (cut_transport digest now s v))
    by_id none e = record {
      keyed = sound.keyed;
      capacity = sound.capacity;
      fits = sound.fits;
      indexed = λ at id h.
          let (x, known, named) = sound.indexed at id h in
          elim (narrowed s gone v.manager id x known) [
            | inl still ↦ (x, still, named)
            | inr (same, _) ↦ absurd (ground (arith, ap logical_id_of same, e, named))
          ];
      served = cut_served digest now s gone v sound;
    }
    by_id (some i) e = record {
      keyed = sound.keyed;
      capacity = sound.capacity;
      fits = unlink-AllFit v.limits i s.connection v.links sound.fits;
      indexed = λ at id h.
          let (entry, other) = entry_kept v.logical_sessions i s.session_id id at h in
          let (x, known, named) = sound.indexed at id entry in
          elim (narrowed s gone v.manager id x known) [
            | inl still ↦ (x, still, named)
            | inr (same, owned) ↦ absurd (
                other (ground (arith, ap logical_id_of same, e, named))
                  (ap (λ y. y.session_id) same ∙ owned))
          ];
      served = cut_served digest now s gone v sound;
    }
