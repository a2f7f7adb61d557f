-- ===== src/Mount/Table.antt =====
-- What IsMounted reads from /proc/mounts: the text that Linux makes of a mount table.
use docker_plugin_gce_pd.Prelude.{◌≡◌, refl, Bool, false, ◌||◌, ◌==◌, List, [], ◌∷◌, ◌++◌, arith}
use docker_plugin_gce_pd.Prelude.Bytes.{Bytes, str_eq, split, is_space}
use docker_plugin_gce_pd.Mount.Paths.{clean}
use docker_plugin_gce_pd.Mount.Mounts.{fields_from, fields, mounts_at, any_mounts_at, mounted_in}
use docker_plugin_gce_pd.Prelude.{if◌then◌else◌}
use docker_plugin_gce_pd.Prelude.{true}

-- A mount: the device and the mount point, and the rest of its line, which has the type, the
-- options and two numbers.
pub record Entry : Type 0 where
  pub device : Bytes
  pub target : Bytes
  pub rest : Bytes

-- A word of a line: not empty, without white space, which Linux escapes.
abbrev pub NoSpace : Bytes → Type 0
NoSpace [] = Unit {0}
NoSpace (c ∷ cs) = (is_space c ≡ false) × NoSpace cs

abbrev pub Word : Bytes → Type 0
Word w = (str_eq w [] ≡ false) × NoSpace w

abbrev pub NoNewline : Bytes → Type 0
NoNewline [] = Unit {0}
NoNewline (c ∷ cs) = ((c == 10) ≡ false) × NoNewline cs

pub record IsEntry (e : Entry) : Type 0 where
  pub device : Word e.device
  pub target : Word e.target
  pub rest : NoNewline e.rest

abbrev pub AreEntries : List Entry → Type 0
AreEntries [] = Unit {0}
AreEntries (e ∷ es) = IsEntry e × AreEntries es

abbrev pub line_of : Entry → Bytes
line_of e = e.device ++ (32 ∷ (e.target ++ (32 ∷ e.rest)))

-- The text of the table: each line ends in a newline.
unfoldable pub text_of : List Entry → Bytes
text_of [] = []
text_of (e ∷ es) = line_of e ++ (10 ∷ text_of es)

-- Some mount of the table is at a path that Clean takes for the same.
unfoldable pub mounted_at : Bytes → List Entry → Bool
mounted_at target [] = false
mounted_at target (e ∷ es) = str_eq (clean e.target) (clean target) || mounted_at target es

split-line :
    (line rest : Bytes) → NoNewline line → split 10 (line ++ (10 ∷ rest)) ≡ line ∷ split 10 rest
unfolding split
split-line [] rest h = ground arith
split-line (c ∷ cs) rest (h, hs) = ground (arith, split-line cs rest hs)

fields_from-NoSpace :
    (w rest : Bytes) → NoSpace w → fields_from (w ++ (32 ∷ rest)) ≡ (fields rest, w)
unfolding fields_from fields is_space
fields_from-NoSpace [] rest h = ground arith
fields_from-NoSpace (c ∷ cs) rest (h, hs) = rw (fields_from-NoSpace cs rest hs) (ground arith)

fields-Word : (w rest : Bytes) → Word w → fields (w ++ (32 ∷ rest)) ≡ w ∷ fields rest
unfolding fields
fields-Word w rest (some_byte, h) = rw (fields_from-NoSpace w rest h) (ground arith)

mounts_at-line :
    (target : Bytes) (e : Entry)
    → IsEntry e
    → mounts_at target (fields (line_of e)) ≡ str_eq (clean e.target) target
unfolding mounts_at
mounts_at-line target e h =
    rw (fields-Word e.device (e.target ++ (32 ∷ e.rest)) h.device)
      (rw (fields-Word e.target e.rest h.target) refl)

NoSpace-NoNewline : (w : Bytes) → NoSpace w → NoNewline w
unfolding is_space
NoSpace-NoNewline [] h = tt
NoSpace-NoNewline (c ∷ cs) (h, hs) = (ground arith, NoSpace-NoNewline cs hs)

append-NoNewline : (a b : Bytes) → NoNewline a → NoNewline b → NoNewline (a ++ b)
append-NoNewline [] b h k = k
append-NoNewline (c ∷ cs) b (h, hs) k = (h, append-NoNewline cs b hs k)

line_of-NoNewline : (e : Entry) → IsEntry e → NoNewline (line_of e)
line_of-NoNewline e h =
    append-NoNewline e.device (32 ∷ (e.target ++ (32 ∷ e.rest)))
      (NoSpace-NoNewline e.device h.device.1)
      (
        refl,
        append-NoNewline e.target (32 ∷ e.rest) (NoSpace-NoNewline e.target h.target.1)
            (refl, h.rest),
      )

no_mounts : (target : Bytes) → any_mounts_at target (split 10 []) ≡ false
unfolding any_mounts_at split mounts_at fields fields_from str_eq
no_mounts target = refl

any_mounts_at-text :
    (target : Bytes) (es : List Entry)
    → AreEntries es
    → any_mounts_at (clean target) (split 10 (text_of es)) ≡ mounted_at target es
unfolding any_mounts_at text_of mounted_at
any_mounts_at-text target [] h = no_mounts (clean target)
any_mounts_at-text target (e ∷ es) (h, hs) =
    rw (split-line (line_of e) (text_of es) (line_of-NoNewline e h))
      (rw (mounts_at-line (clean target) e h, any_mounts_at-text target es hs) refl)

-- On the text that Linux makes of a mount table IsMounted finds exactly the mount points of the
-- table, up to Clean. The devices and mount points of the table are words without white space.
pub mounted_in-text_of :
    (target : Bytes) (es : List Entry)
    → AreEntries es
    → mounted_in target (text_of es) ≡ mounted_at target es
unfolding mounted_in
mounted_in-text_of target es h = any_mounts_at-text target es h

-- The table without the last of the mounts at a path, which is the one on top.
unfoldable pub without_top : Bytes → List Entry → List Entry
unfolding mounted_at
without_top target [] = []
without_top target (e ∷ es) =
    let rest = without_top target es in
    if mounted_at target es
    then e ∷ rest
    else if str_eq (clean e.target) (clean target)
    then es
    else e ∷ es

pub mounted_at-last :
    (target : Bytes) (es : List Entry) (e : Entry)
    → mounted_at target (es ++ (e ∷ []))
      ≡ mounted_at target es || str_eq (clean e.target) (clean target)
unfolding mounted_at
mounted_at-last target [] e = ground arith
mounted_at-last target (f ∷ es) e = ground (arith, mounted_at-last target es e)

pub without_top-last :
    (target : Bytes) (es : List Entry) (e : Entry)
    → mounted_at target es ≡ false
    → str_eq (clean e.target) (clean target) ≡ true
    → without_top target (es ++ (e ∷ [])) ≡ es
unfolding without_top mounted_at
without_top-last target [] e h same = ground arith
without_top-last target (f ∷ es) e h same =
    ground (arith, mounted_at-last target es e, without_top-last target es e)
