-- ===== src/Gce/Info/Segments.antt =====
-- The last part of a path, whatever stands in front of it.
use docker_plugin_gce_pd.Prelude.{
  ◌≡◌, refl, false, Option, none, some, [], ◌∷◌, ◌++◌, arith, ◌==◌, if◌then◌else◌,
}
use docker_plugin_gce_pd.Prelude.Bytes.{Bytes, codes}
use docker_plugin_gce_pd.Gce.Info.{after_last, last_url_segment}

-- No byte of the text is a slash.
abbrev pub NoSlash : Bytes → Type 0
NoSlash [] = Unit
NoSlash (c ∷ cs) = (c == b'/' ≡ false) × NoSlash cs

pub after_last-none : (s : Bytes) → NoSlash s → after_last b'/' s ≡ none
unfolding after_last
after_last-none [] h = refl
after_last-none (c ∷ cs) (h, hs) = ground (arith, after_last-none cs hs)

pub after_last-append : (a s : Bytes) → NoSlash s → after_last b'/' (a ++ (codes "/" ++ s)) ≡ some s
unfolding after_last
after_last-append [] s h = rw (after_last-none s h)
after_last-append (c ∷ a) s h = rw (after_last-append a s h)

-- What follows the last slash has none, and so has a text without a last slash.
abbrev pub Cut : Bytes → Option Bytes → Type 0
Cut s none = NoSlash s
Cut s (some r) = NoSlash r

pub after_last-Cut : (s : Bytes) → Cut s (after_last b'/' s)
unfolding after_last
after_last-Cut [] = tt
after_last-Cut (c ∷ cs) = go (after_last b'/' cs) (after_last-Cut cs)
  where
    go :
        (o : Option Bytes)
        → Cut cs o
        → Cut
            (c ∷ cs)
            (elim o [ some rest ↦ some rest | none ↦ if c == b'/' then some cs else none ])
    go (some r) h = h
    go none h = ground arith

pub last_url_segment-append :
    (a s : Bytes) → NoSlash s → last_url_segment (a ++ (codes "/" ++ s)) ≡ s
unfolding last_url_segment
last_url_segment-append a s h = rw (after_last-append a s h, last_url_segment)
