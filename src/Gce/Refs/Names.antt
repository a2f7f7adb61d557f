-- ===== src/Gce/Refs/Names.antt =====
-- References to instances: which instance each of them names.
use mathlib.Core.Path.{subst}
use mathlib.Core.List.{append_assoc}
use docker_plugin_gce_pd.Prelude.{
  ℕ, ◌≡◌, ◌↔◌, refl, sym, ap, ◌∙◌, true, Option, none, some, [], ◌∷◌, ◌++◌, arith,
}
use docker_plugin_gce_pd.Prelude.Bytes.{Bytes, codes, str_eq_iff, str_eq→eq}
use docker_plugin_gce_pd.Gce.Info.{after_last, last_url_segment}
use docker_plugin_gce_pd.Gce.Info.Segments.{NoSlash, last_url_segment-append}
use docker_plugin_gce_pd.Gce.Refs.{
  has_prefix, from_last_index, drop_first, marker, trailing_instance_path, same_instance,
  instance_name_from_ref, instance_path,
}
use docker_plugin_gce_pd.Prelude.Bytes.{str_eq→eq}

from_last_index-append :
    (sub a s : Bytes) {r : Bytes}
    → from_last_index sub s ≡ some r
    → from_last_index sub (a ++ s) ≡ some r
unfolding from_last_index
from_last_index-append sub [] s h = h
from_last_index-append sub (c ∷ a) s h = rw (from_last_index-append sub a s h)

from_last_index-here :
    (c : ℕ) (cs sub : Bytes)
    → from_last_index sub cs ≡ none
    → has_prefix (c ∷ cs) sub ≡ true
    → from_last_index sub (c ∷ cs) ≡ some (c ∷ cs)
unfolding from_last_index
from_last_index-here c cs sub h k = ground arith

trailing_some :
    (s r : Bytes) → from_last_index marker s ≡ some r → trailing_instance_path s ≡ drop_first r
unfolding trailing_instance_path
trailing_some s r h = rw (h, trailing_instance_path)

trailing_none : (s : Bytes) → from_last_index marker s ≡ none → trailing_instance_path s ≡ s
unfolding trailing_instance_path
trailing_none s h = ground arith

-- A URL in front of the path of an instance does not matter.
trailing-prefixed :
    (a p z n : Bytes)
    → trailing_instance_path (a ++ (codes "/" ++ instance_path p z n))
      ≡ trailing_instance_path (instance_path p z n)
unfolding instance_path has_prefix
trailing-prefixed a p z n = go (from_last_index marker (instance_path p z n)) refl
  where
    q : Bytes
    q = instance_path p z n

    go :
        (o : Option Bytes)
        → from_last_index marker q ≡ o
        → trailing_instance_path (a ++ (codes "/" ++ q)) ≡ trailing_instance_path q
    go (some r) e =
        trailing_some (a ++ (codes "/" ++ q)) r (
          from_last_index-append marker a (codes "/" ++ q)
            (from_last_index-append marker (codes "/") q e))
        ∙ sym (trailing_some q r e)
    go none e =
        trailing_some (a ++ (codes "/" ++ q)) (codes "/" ++ q) (
          from_last_index-append marker a (codes "/" ++ q)
            (from_last_index-here b'/' q marker e refl))
        ∙ sym (trailing_none q e)

-- A text that starts with one that has a slash has one.
after_last-prefix :
    (s u : Bytes) {x : Bytes}
    → has_prefix s u ≡ true
    → after_last b'/' u ≡ some x
    → (t : Bytes) × (after_last b'/' s ≡ some t)
unfolding has_prefix after_last
after_last-prefix s [] h k = cc
after_last-prefix [] (d ∷ u) h k = cc
after_last-prefix (c ∷ s) (d ∷ u) {x} h k =
    go (after_last b'/' u) refl (after_last b'/' s) refl
      (λ y e. after_last-prefix s u {x = y} (ground arith) e)
  where
    go :
        (o : Option Bytes)
        → after_last b'/' u ≡ o
        → (o' : Option Bytes) → after_last b'/' s ≡ o'
        → ((y : Bytes) → after_last b'/' u ≡ some y → (t : Bytes) × (after_last b'/' s ≡ some t))
        → (t : Bytes) × (after_last b'/' (c ∷ s) ≡ some t)
    go o e (some t) e' ih = (t, rw e')
    go none e none e' ih = (s, ground arith)
    go (some y) e none e' ih = let (t, k') = ih y e in (t, cc)

-- After the marker a slash follows, and the last one is that of the whole text.
after_last-trailing :
    (s r : Bytes)
    → from_last_index marker s ≡ some r
    → (t : Bytes) × (after_last b'/' (drop_first r) ≡ some t) × (after_last b'/' s ≡ some t)
unfolding from_last_index has_prefix after_last
after_last-trailing [] r h = cc
after_last-trailing (c ∷ cs) r h = go (from_last_index marker cs) refl (after_last-trailing cs)
  where
    go :
        (o : Option Bytes)
        → from_last_index marker cs ≡ o
        → ((r' : Bytes)
            → from_last_index marker cs ≡ some r'
            → (t : Bytes) × (after_last b'/' (drop_first r') ≡ some t)
              × (after_last b'/' cs ≡ some t))
        → (t : Bytes) × (after_last b'/' (drop_first r) ≡ some t)
          × (after_last b'/' (c ∷ cs) ≡ some t)
    go (some r') e ih =
        let (t, e1, e2) = ih r' e in
        let same : r' ≡ r = ground arith in
        (t, subst (λ x. after_last b'/' (drop_first x) ≡ some t) same e1, rw e2)
    go none e ih =
        let same : c ∷ cs ≡ r = ground arith in
        let (t, k) = after_last-prefix cs (codes "projects/") {x = []} (ground arith) refl in
        (t, subst (λ x. after_last b'/' (drop_first x) ≡ some t) same k, rw k)

last_url_segment-some : (s t : Bytes) → after_last b'/' s ≡ some t → last_url_segment s ≡ t
unfolding last_url_segment
last_url_segment-some s t e = rw (e, last_url_segment)

last_url_segment-trailing :
    (s : Bytes) → last_url_segment (trailing_instance_path s) ≡ last_url_segment s
last_url_segment-trailing s = go (from_last_index marker s) refl
  where
    go :
        (o : Option Bytes)
        → from_last_index marker s ≡ o
        → last_url_segment (trailing_instance_path s) ≡ last_url_segment s
    go none e = ap last_url_segment (trailing_none s e)
    go (some r) e =
        let (t, e1, e2) = after_last-trailing s r e in
        ap last_url_segment (trailing_some s r e)
        ∙ last_url_segment-some (drop_first r) t e1
        ∙ sym (last_url_segment-some s t e2)

-- What stands in front of the last slash of the path of an instance.
abbrev front : Bytes → Bytes → Bytes
front p z = codes "projects/" ++ (p ++ (codes "/zones/" ++ (z ++ codes "/instances")))

instance_path-split : (p z n : Bytes) → instance_path p z n ≡ front p z ++ (codes "/" ++ n)
unfolding instance_path
instance_path-split p z n = simp append_assoc

last_url_segment-path : (p z n : Bytes) → NoSlash n → last_url_segment (instance_path p z n) ≡ n
last_url_segment-path p z n h =
    ap last_url_segment (instance_path-split p z n) ∙ last_url_segment-append (front p z) n h

last_url_segment-prefixed :
    (a p z n : Bytes) → NoSlash n → last_url_segment (a ++ (codes "/" ++ instance_path p z n)) ≡ n
last_url_segment-prefixed a p z n h =
    ap last_url_segment (
      rw (instance_path-split p z n)
        (sym (append_assoc a (codes "/" ++ front p z) (codes "/" ++ n))))
    ∙ last_url_segment-append (a ++ (codes "/" ++ front p z)) n h

-- The name of an instance is read back from any reference that ends in its path.
pub instance_name_from_ref_lem :
    (a p z n : Bytes)
    → NoSlash n
    → instance_name_from_ref (a ++ (codes "/" ++ instance_path p z n)) ≡ n
unfolding instance_name_from_ref
instance_name_from_ref_lem a p z n h =
    last_url_segment-trailing (a ++ (codes "/" ++ instance_path p z n))
    ∙ last_url_segment-prefixed a p z n h

-- A reference that ends in the path of an instance and the path of an instance of the same project
-- and zone are the same to sameInstance exactly if the instances have the same name, whatever URL
-- stands in front of the reference.
pub same_instance_iff :
    (a p z n m : Bytes)
    → NoSlash n
    → NoSlash m
    → (same_instance (a ++ (codes "/" ++ instance_path p z n)) (instance_path p z m) ≡ true)
      ↔ (n ≡ m)
unfolding same_instance
same_instance_iff a p z n m h k = (
  λ same.
      sym (last_url_segment-prefixed a p z n h)
      ∙ sym (last_url_segment-trailing (a ++ (codes "/" ++ instance_path p z n)))
      ∙ ap last_url_segment (str_eq→eq _ _ same)
      ∙ last_url_segment-trailing (instance_path p z m)
      ∙ last_url_segment-path p z m k,
  λ e.
      (str_eq_iff (trailing_instance_path (a ++ (codes "/" ++ instance_path p z n)))
          (trailing_instance_path (instance_path p z m))).1
        (trailing-prefixed a p z n ∙ ap (λ i. trailing_instance_path (instance_path p z i)) e),
)
