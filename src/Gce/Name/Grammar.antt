-- ===== src/Gce/Name/Grammar.antt =====
-- The validator of disk names against the grammar that the expression stands for.
use mathlib.Core.Path.{subst}
use docker_plugin_gce_pd.Prelude.{ℕ, ◌≤◌, ◌≡◌, refl, sym, ap, ◌↔◌, true, [], ◌∷◌, ◌++◌}
use docker_plugin_gce_pd.Prelude.{ok, length, Bool, arith}
use docker_plugin_gce_pd.Prelude.Bytes.{Bytes, str_eq_iff}
use docker_plugin_gce_pd.Gce.Name.{is_lower, is_alnum, is_name_byte, matches_rest, matches_name}
use docker_plugin_gce_pd.Gce.Name.{validate_disk_name}
use docker_plugin_gce_pd.Prelude.{◌≢◌}

abbrev pub AllOf : (ℕ → Bool) → Bytes → Type 0
AllOf p [] = Unit
AllOf p (c ∷ cs) = (p c ≡ true) × AllOf p cs

-- A lower case letter, alone or followed by name bytes and a letter or digit.
pub data DiskName : Bytes → Type 0 where
  letter : (c : ℕ) → is_lower c ≡ true → DiskName (c ∷ [])
  longer :
      (c : ℕ) (middle : Bytes) (last : ℕ) (cs : Bytes)
      → is_lower c ≡ true
      → AllOf is_name_byte middle
      → is_alnum last ≡ true
      → cs ≡ middle ++ (last ∷ [])
      → DiskName (c ∷ cs)

AllOf-append :
    (a : Bytes) (c : ℕ)
    → AllOf is_name_byte a
    → is_alnum c ≡ true
    → AllOf is_name_byte (a ++ (c ∷ []))
AllOf-append [] c _ h = (ground arith, tt)
AllOf-append (x ∷ a) c (p, ps) h = (p, AllOf-append a c ps h)

pub DiskName-bytes : {name : Bytes} → DiskName name → AllOf is_name_byte name
DiskName-bytes (letter c h) = (ground arith, tt)
DiskName-bytes (longer c middle last cs h a e w) =
    (ground arith, subst (AllOf is_name_byte) (sym w) (AllOf-append middle last a e))

matches_rest-append :
    (middle : Bytes) (last : ℕ)
    → AllOf is_name_byte middle
    → is_alnum last ≡ true
    → matches_rest (middle ++ (last ∷ [])) ≡ true
unfolding matches_rest
matches_rest-append [] last a h = h
matches_rest-append (c ∷ []) last (a, _) h = ground arith
matches_rest-append (c ∷ d ∷ m) last (a, rest) h =
    ground (arith, matches_rest-append (d ∷ m) last rest h)

-- A nonempty matched rest splits before its last byte.
record Split (cs : Bytes) : Type 0 where
  middle : Bytes
  last : ℕ
  name_bytes : AllOf is_name_byte middle
  ends : is_alnum last ≡ true
  whole : cs ≡ middle ++ (last ∷ [])

Split-rest : (c : ℕ) (cs : Bytes) → matches_rest (c ∷ cs) ≡ true → Split (c ∷ cs)
unfolding matches_rest
Split-rest c [] h = record { middle = []; last = c; name_bytes = tt; ends = h; whole = refl }
Split-rest c (d ∷ cs) h =
    let s : Split (d ∷ cs) = Split-rest d cs (ground arith) in
    record {
      middle = c ∷ s.middle;
      last = s.last;
      name_bytes = (ground arith, s.name_bytes);
      ends = s.ends;
      whole = ap (λ r. c ∷ r) s.whole;
    }

matches_name_sound : (name : Bytes) → matches_name name ≡ true → DiskName name
unfolding matches_name
matches_name_sound [] h = ground arith
matches_name_sound (c ∷ []) h = letter c (ground arith)
matches_name_sound (c ∷ d ∷ cs) h =
    let s : Split (d ∷ cs) = Split-rest d cs (ground arith) in
    longer c s.middle s.last (d ∷ cs) (ground arith) s.name_bytes s.ends s.whole

matches_name_complete : {name : Bytes} → DiskName name → matches_name name ≡ true
unfolding matches_name
matches_name_complete (letter c h) = ground arith
matches_name_complete (longer c middle last cs h a e w) =
    ground (arith, ap matches_rest w, matches_rest-append middle last a e)

not_empty : {name : Bytes} → DiskName name → name ≢ []
not_empty (letter c h) e = cc
not_empty (longer c middle last cs h a e w) k = cc

accepted-parts :
    (name : Bytes)
    → validate_disk_name name ≡ ok tt
    → (matches_name name ≡ true) × (length name ≤ 63)
unfolding validate_disk_name
accepted-parts name h = ground arith

accepted-of_parts :
    (name : Bytes)
    → name ≢ []
    → matches_name name ≡ true
    → length name ≤ 63
    → validate_disk_name name ≡ ok tt
unfolding validate_disk_name
accepted-of_parts name n m l = ground (arith, str_eq_iff name [])

-- A name is accepted exactly when it has at most 63 bytes and is a lower case letter, alone or
-- followed by letters, digits and hyphens of which the last is no hyphen.
pub validate_disk_name_iff :
    (name : Bytes) → (validate_disk_name name ≡ ok tt) ↔ (DiskName name × (length name ≤ 63))
validate_disk_name_iff name = (
  λ h. let (m, l) = accepted-parts name h in (matches_name_sound name m, l),
  λ (d, l). accepted-of_parts name (not_empty d) (matches_name_complete d) l,
)
