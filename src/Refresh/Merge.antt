-- ===== src/Refresh/Merge.antt =====
-- A refresh that is repeated: the rows that a pass leaves are not changed by the same feed again.
use podarium.Prelude.{
  ℕ, suc, zero, ◌≡◌, ◌≢◌, refl, arith, sym, ap, ◌∙◌, subst, Bool, true, false, Option, none, some,
  if◌then◌else◌, is_some, Bool-cases, Option-cases, inl, inr,
}
use podarium.Model.Enums.{Stamp}
use podarium.Model.Episode.{Episode}
use podarium.Refresh.{
  ParsedEpisode, apply_parsed_episode, note_sizes, note_replaced_audio, stamped, refresh_noted,
  refresh_row, any_changes,
}
use podarium.Refresh.Apply.{
  IsKept, apply_parsed_episode_twice, apply_parsed_episode-IsKept, apply_parsed_episode-replaced,
}

-- Where the audio has been compared, comparing it again says nothing new.
note_sizes_twice :
    (now now' : Stamp) (held declared : Option ℕ) (e : Episode) {e1 : Episode} (e' : Episode)
    → note_sizes now held declared e ≡ some e1
    → e'.replaced_at ≡ e1.replaced_at
    → note_sizes now' held declared e' ≡ some e'
unfolding note_sizes
note_sizes_twice now now' none declared e {e1} e' h k = refl
note_sizes_twice now now' (some b) none e {e1} e' h k = refl
note_sizes_twice now now' (some b) (some zero) e {e1} e' h k = refl
note_sizes_twice now now' (some zero) (some (suc n)) e {e1} e' h k = ground arith
note_sizes_twice now now' (some (suc b)) (some (suc n)) e {e1} e' h k = ground arith

-- Only the mark of a replacement is written.
note_sizes-local :
    (now : Stamp) (held declared : Option ℕ) (e : Episode) {e1 : Episode}
    → note_sizes now held declared e ≡ some e1
    → (e1.local_path ≡ e.local_path) × (e1.local_bytes ≡ e.local_bytes) × (e1.guid ≡ e.guid)
unfolding note_sizes
note_sizes-local now none declared e {e1} h = ground arith
note_sizes-local now (some b) none e {e1} h = ground arith
note_sizes-local now (some b) (some zero) e {e1} h = ground arith
note_sizes-local now (some zero) (some (suc n)) e {e1} h = ground arith
note_sizes-local now (some (suc b)) (some (suc n)) e {e1} h = ground arith

-- The stamp is not read by the pass.
apply_parsed_episode-stamp :
    (e : Episode) (p : ParsedEpisode) (t : Stamp)
    → apply_parsed_episode (record e { updated_at = t }) p
      ≡ (record (apply_parsed_episode e p).0 { updated_at = t }, (apply_parsed_episode e p).1)
unfolding apply_parsed_episode any_changes
apply_parsed_episode-stamp e p t = refl

pub stamped_same : (now : Stamp) (e : Episode) → stamped now e e false ≡ e
unfolding stamped
stamped_same now e = ground arith

-- What a stored render leaves.
record IsStored (now : Stamp) (e1 : Episode) (p : ParsedEpisode) (e' : Episode) : Type 0 where
  again : apply_parsed_episode e' p ≡ (e', false)
  replaced : e'.replaced_at ≡ e1.replaced_at
  path : e'.local_path ≡ e1.local_path
  bytes : e'.local_bytes ≡ e1.local_bytes
  guid : e'.guid ≡ e1.guid

stamped-IsStored :
    (now : Stamp) (e e1 : Episode) (p : ParsedEpisode) (c : Bool)
    → IsStored now e1 p (stamped now e (apply_parsed_episode e1 p).0 c)
unfolding stamped
stamped-IsStored now e e1 p c =
    let e2 = (apply_parsed_episode e1 p).0 in
    let kept : IsKept e1 e2 = apply_parsed_episode-IsKept e1 p in
    record {
      again =
          apply_parsed_episode-stamp e2 p _
          ∙ ap
              (λ (r : Episode × Bool).
                (record r.0 { updated_at = (stamped now e e2 c).updated_at }, r.1))
              (apply_parsed_episode_twice e1 p);
      replaced = apply_parsed_episode-replaced e1 p;
      path = kept.path;
      bytes = kept.bytes;
      guid = kept.guid;
    }

-- A row that has taken a render is not changed by the same render, and keeps its guid.
refresh_noted_twice :
    (now now' : Stamp) (e e1 : Episode) (p : ParsedEpisode) {e' : Episode} {c : Bool}
    → refresh_noted now e p (some e1) ≡ some (e', c)
    → (refresh_noted now' e' p (some e') ≡ some (e', false))
      × (e'.replaced_at ≡ e1.replaced_at)
      × (e'.local_path ≡ e1.local_path)
      × (e'.local_bytes ≡ e1.local_bytes)
      × (e'.guid ≡ e1.guid)
unfolding refresh_noted
refresh_noted_twice now now' e e1 p {e'} {c} h =
    let r = apply_parsed_episode e1 p in
    let same : stamped now e r.0 r.1 ≡ e' = ground arith in
    let s : IsStored now e1 p e' =
      subst (IsStored now e1 p) same (stamped-IsStored now e e1 p r.1) in
    (
      ap (λ (x : Episode × Bool). some (stamped now' e' x.0 x.1, x.1)) s.again
          ∙ ap (λ x. some (x, false)) (stamped_same now' e'),
      s.replaced,
      s.path,
      s.bytes,
      s.guid,
    )

pub some-inj : {A : Type 0} {a b : A} → some a ≡ some b → a ≡ b
some-inj h = cc

pub refresh_noted-none :
    (now : Stamp) (e : Episode) (p : ParsedEpisode) {x : Episode × Bool}
    → refresh_noted now e p none ≢ some x
unfolding refresh_noted
refresh_noted-none now e p h = cc

-- The comparison of the audio, where there is a file.
abbrev pub noted : Stamp → ParsedEpisode → Episode → Option Episode
noted now p e = if is_some e.local_path then note_replaced_audio now e p else some e

pub noted-local :
    (now : Stamp) (p : ParsedEpisode) (e : Episode) {e1 : Episode}
    → noted now p e ≡ some e1
    → (e1.local_path ≡ e.local_path) × (e1.local_bytes ≡ e.local_bytes) × (e1.guid ≡ e.guid)
unfolding note_replaced_audio
noted-local now p e {e1} h = elim (Bool-cases (is_some e.local_path)) [
  | inl here ↦
      note_sizes-local now e.local_bytes p.enclosure_bytes e
        (subst (λ b. (if b then note_replaced_audio now e p else some e) ≡ some e1) here h)
  | inr bare ↦
      let same : e ≡ e1 =
        some-inj
          (subst (λ b. (if b then note_replaced_audio now e p else some e) ≡ some e1) bare h) in
      (
        ap (λ (x : Episode). x.local_path) (sym same),
        ap (λ (x : Episode). x.local_bytes) (sym same),
        ap (λ (x : Episode). x.guid) (sym same),
      )
]

noted_twice :
    (now now' : Stamp) (p : ParsedEpisode) (e : Episode) {e1 : Episode} (e' : Episode)
    → noted now p e ≡ some e1
    → e'.replaced_at ≡ e1.replaced_at
    → e'.local_path ≡ e.local_path
    → e'.local_bytes ≡ e.local_bytes
    → noted now' p e' ≡ some e'
unfolding note_replaced_audio
noted_twice now now' p e {e1} e' h replaced path bytes = elim (Bool-cases (is_some e.local_path)) [
  | inl here ↦
      let there : is_some e'.local_path ≡ true = ap is_some path ∙ here in
      let first : note_sizes now e.local_bytes p.enclosure_bytes e ≡ some e1 =
        subst (λ b. (if b then note_replaced_audio now e p else some e) ≡ some e1) here h in
      rw there (
        subst (λ o. note_sizes now' o p.enclosure_bytes e' ≡ some e') (sym bytes)
          (note_sizes_twice now now' e.local_bytes p.enclosure_bytes e e' first replaced))
  | inr bare ↦ let there : is_some e'.local_path ≡ false = ap is_some path ∙ bare in rw there refl
]

pub refresh_row_twice :
    (now now' : Stamp) (e : Episode) (p : ParsedEpisode) {e' : Episode} {c : Bool}
    → refresh_row now e p ≡ some (e', c)
    → (refresh_row now' e' p ≡ some (e', false)) × (e'.guid ≡ e.guid)
unfolding refresh_row
refresh_row_twice now now' e p {e'} {c} h = elim (Option-cases (noted now p e)) [
  | inl m ↦
      let none_left : refresh_noted now e p none ≡ some (e', c) =
        subst (λ o. refresh_noted now e p o ≡ some (e', c)) m h in
      absurd (refresh_noted-none now e p none_left)
  | inr (e1, m) ↦
      let first : refresh_noted now e p (some e1) ≡ some (e', c) =
        subst (λ o. refresh_noted now e p o ≡ some (e', c)) m h in
      let (again, replaced, path, bytes, guid) = refresh_noted_twice now now' e e1 p first in
      let (path1, bytes1, guid1) = noted-local now p e m in
      (
        ap (refresh_noted now' e' p)
              (noted_twice now now' p e e' m replaced (path ∙ path1) (bytes ∙ bytes1))
            ∙ again,
        guid ∙ guid1,
      )
]
