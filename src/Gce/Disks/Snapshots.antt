-- ===== src/Gce/Disks/Snapshots.antt =====
-- The names of the snapshots that DeleteDisk takes.
use mathlib.Core.List.{append_assoc}
use native.Mathlib.Nat.{mod-lt, zero-lt-suc}
use docker_plugin_gce_pd.Gce.Retry.{Civil}
use docker_plugin_gce_pd.Gce.Stamp.{digit, two_digits, year_digits, now_stamp}
use docker_plugin_gce_pd.Prelude.{
  ◌<◌, ◌/◌, ℕ, zero, suc, ◌+◌, ◌≤◌, ◌≡◌, ◌≢◌, refl, ap, ◌∙◌, Bool, true, [], ◌∷◌, ◌++◌, ok, arith,
  length,
}
use docker_plugin_gce_pd.Prelude.Bytes.{Bytes, codes}
use docker_plugin_gce_pd.Gce.Name.{is_lower, is_alnum, is_name_byte, validate_disk_name}
use docker_plugin_gce_pd.Gce.Name.Grammar.{
  AllOf, DiskName, letter, longer, DiskName-bytes, validate_disk_name_iff,
}
use docker_plugin_gce_pd.Gce.Refs.{truncate}
use docker_plugin_gce_pd.Gce.Disks.{snapshot_name}

AllOf-both : (p : ℕ → Bool) (a b : Bytes) → AllOf p a → AllOf p b → AllOf p (a ++ b)
AllOf-both p [] b h k = k
AllOf-both p (c ∷ a) b (h, hs) k = (h, AllOf-both p a b hs k)

AllOf-truncate : (p : ℕ → Bool) (n : ℕ) (a : Bytes) → AllOf p a → AllOf p (truncate a n)
unfolding truncate
AllOf-truncate p zero a h = tt
AllOf-truncate p (suc n) [] h = tt
AllOf-truncate p (suc n) (c ∷ a) (h, hs) = (h, AllOf-truncate p n a hs)

alnum-name : (a : Bytes) → AllOf is_alnum a → AllOf is_name_byte a
alnum-name [] h = tt
alnum-name (c ∷ a) (h, hs) = (ground arith, alnum-name a hs)

length-truncate : (a : Bytes) (n : ℕ) → length (truncate a n) ≤ n
unfolding truncate
length-truncate a zero = omega arith
length-truncate [] (suc n) = omega arith
length-truncate (c ∷ a) (suc n) = omega (arith, length-truncate a n)

length-append : (a b : Bytes) → length (a ++ b) ≡ length a + length b
length-append [] b = omega arith
length-append (c ∷ a) b = omega (arith, length-append a b)

-- A text of letters and digits, before its last byte.
record Stem (s : Bytes) : Type 0 where
  init : Bytes
  last : ℕ
  letters : AllOf is_alnum init
  ends : is_alnum last ≡ true
  whole : s ≡ init ++ (last ∷ [])

Stem-cons : (c : ℕ) (s : Bytes) → AllOf is_alnum (c ∷ s) → Stem (c ∷ s)
Stem-cons c [] (h, _) = record { init = []; last = c; letters = tt; ends = h; whole = refl }
Stem-cons c (d ∷ s) (h, hs) =
    let r : Stem (d ∷ s) = Stem-cons d s hs in
    record {
      init = c ∷ r.init;
      last = r.last;
      letters = (h, r.letters);
      ends = r.ends;
      whole = ap (λ t. c ∷ t) r.whole;
    }

abbrev infix_of : Bytes → Bytes → Bytes
infix_of cs init = truncate cs 39 ++ (codes "-snap-" ++ init)

snapshot_name-DiskName :
    (c : ℕ) (cs : Bytes) (d : ℕ) (s : Bytes)
    → is_lower c ≡ true
    → AllOf is_name_byte cs
    → AllOf is_alnum (d ∷ s)
    → DiskName (snapshot_name (c ∷ cs) (d ∷ s))
unfolding snapshot_name truncate
snapshot_name-DiskName c cs d s low bytes letters =
    let r : Stem (d ∷ s) = Stem-cons d s letters in
    longer c (infix_of cs r.init) r.last (infix_of cs (d ∷ s)) low
      (AllOf-both is_name_byte (truncate cs 39) (codes "-snap-" ++ r.init)
        (AllOf-truncate is_name_byte 39 cs bytes)
        (AllOf-both is_name_byte (codes "-snap-") r.init (ground arith)
          (alnum-name r.init r.letters)))
      r.ends (ap (infix_of cs) r.whole ∙ simp append_assoc)

snapshot_name-of_DiskName :
    (name : Bytes) (d : ℕ) (s : Bytes)
    → DiskName name
    → AllOf is_alnum (d ∷ s)
    → DiskName (snapshot_name name (d ∷ s))
snapshot_name-of_DiskName name d s (letter c h) letters =
    snapshot_name-DiskName c [] d s h tt letters
snapshot_name-of_DiskName name d s (longer c middle last cs h a e w) letters =
    snapshot_name-DiskName c cs d s h (DiskName-bytes (longer c middle last cs h a e w)).1 letters

length-snapshot_name : (name stamp : Bytes) → length (snapshot_name name stamp) ≤ 46 + length stamp
unfolding snapshot_name
length-snapshot_name name stamp =
    omega
      (arith, length-append (truncate name 40) (codes "-snap-" ++ stamp), length-truncate name 40)

-- The same with a time stamp of one to seventeen letters and digits.
stamped_name_valid :
    (name stamp : Bytes)
    → validate_disk_name name ≡ ok tt
    → stamp ≢ []
    → AllOf is_alnum stamp
    → length stamp ≤ 17
    → validate_disk_name (snapshot_name name stamp) ≡ ok tt
stamped_name_valid name [] valid some' letters short = absurd (some' refl)
stamped_name_valid name (d ∷ s) valid some' letters short =
    (validate_disk_name_iff (snapshot_name name (d ∷ s))).1 (
      snapshot_name-of_DiskName name d s ((validate_disk_name_iff name).0 valid).0 letters,
      omega (arith, length-snapshot_name name (d ∷ s)),
    )

digit-IsAlnum : (n : ℕ) → is_alnum (digit n) ≡ true
digit-IsAlnum n = ground (arith, mod-lt n (zero-lt-suc 9))

two_digits-AllOf : (n : ℕ) → AllOf is_alnum (two_digits n)
two_digits-AllOf n = (digit-IsAlnum (n / 10), (digit-IsAlnum n, tt))

two-AllOf : (n : ℕ) (b : Bytes) → AllOf is_alnum b → AllOf is_alnum (two_digits n ++ b)
two-AllOf n b h = (digit-IsAlnum (n / 10), (digit-IsAlnum n, h))

year_digits-AllOf : (n : ℕ) → n < 10000 → AllOf is_alnum (year_digits n)
unfolding year_digits
year_digits-AllOf n lt =
    let short : year_digits n ≡ two_digits (n / 100) ++ two_digits n = ground arith in
    rw (year_digits, short)
      (AllOf-both is_alnum (two_digits (n / 100)) (two_digits n) (two_digits-AllOf (n / 100))
        (two_digits-AllOf n))

now_stamp-AllOf : (t : Civil) → t.year < 10000 → AllOf is_alnum (now_stamp t)
unfolding now_stamp
now_stamp-AllOf t lt =
    let clock_of = two_digits t.hour ++ (two_digits t.minute ++ two_digits t.second) in
    AllOf-both is_alnum (year_digits t.year)
      (two_digits t.month ++ (two_digits t.day ++ (b't' ∷ clock_of))) (year_digits-AllOf t.year lt)
      (two-AllOf t.month (two_digits t.day ++ (b't' ∷ clock_of)) (
        two-AllOf t.day (b't' ∷ clock_of) (
          refl,
          two-AllOf t.hour (two_digits t.minute ++ two_digits t.second)
              (two-AllOf t.minute (two_digits t.second) (two_digits-AllOf t.second)),
        )))

length-now_stamp : (t : Civil) → t.year < 10000 → length (now_stamp t) ≡ 15
unfolding now_stamp year_digits
length-now_stamp t lt = ground arith

-- The snapshot that DeleteDisk asks for, of a disk with a valid name, has a valid name, at any time
-- before the year 10000.
pub snapshot_name_valid :
    (name : Bytes) (t : Civil)
    → validate_disk_name name ≡ ok tt
    → t.year < 10000
    → validate_disk_name (snapshot_name name (now_stamp t)) ≡ ok tt
snapshot_name_valid name t valid lt =
    stamped_name_valid name (now_stamp t) valid
      (λ e. omega (arith, length-now_stamp t lt, ap length e)) (now_stamp-AllOf t lt)
      (omega (arith, length-now_stamp t lt))
