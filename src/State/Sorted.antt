-- ===== src/State/Sorted.antt =====
-- The order in which List returns the volumes and `persist` writes them.
use docker_plugin_gce_pd.Prelude.{◌≡◌, refl, ◌∙◌, true, Option, none, some, List, [], ◌∷◌}
use docker_plugin_gce_pd.Prelude.{inl, inr, Bool-cases, arith, if◌then◌else◌}
use docker_plugin_gce_pd.Prelude.Bytes.{
  Bytes, str_eq, str_eq_iff, str_lt, str_lt_trans, str_lt_connected,
}
use docker_plugin_gce_pd.Prelude.Map.{Map, lookup, NodupKeys, EachOf}
use docker_plugin_gce_pd.State.Volume.{Volume}
use docker_plugin_gce_pd.State.Files.{insert_sorted, sort_by_name, values, sorted_volumes}

-- Each volume stands under its own name.
abbrev pub Named : Bytes → Volume → Type 0
Named k v = v.name ≡ k

-- The last volume with a name.
unfoldable pub last_named : Bytes → List Volume → Option Volume
last_named k [] = none
last_named k (v ∷ vs) = elim (last_named k vs) [
  | some w ↦ some w
  | none ↦ if str_eq v.name k then some v else none
]

abbrev pub Distinct : List Volume → Type 0
Distinct [] = Unit
Distinct (v ∷ vs) = (last_named v.name vs ≡ none) × Distinct vs

-- The names are above `n`.
abbrev pub Above : Bytes → List Volume → Type 0
Above n [] = Unit
Above n (v ∷ vs) = (str_lt n v.name ≡ true) × Above n vs

-- The names ascend.
abbrev pub IsSorted : List Volume → Type 0
IsSorted [] = Unit
IsSorted (v ∷ vs) = Above v.name vs × IsSorted vs

pub last_named-cons :
    (k : Bytes) (v : Volume) (vs : List Volume)
    → last_named k (v ∷ vs)
      ≡ elim (last_named k vs) [ some w ↦ some w | none ↦ if str_eq v.name k then some v else none ]
unfolding last_named
last_named-cons k v vs = refl

last_named-insert_sorted :
    (k : Bytes) (v : Volume) (vs : List Volume)
    → last_named v.name vs ≡ none
    → last_named k (insert_sorted v vs) ≡ last_named k (v ∷ vs)
unfolding insert_sorted last_named
last_named-insert_sorted k v [] h = refl
last_named-insert_sorted k v (w ∷ ws) h = ground (
  arith,
  last_named-insert_sorted k v ws,
  str_eq_iff w.name v.name,
  str_eq_iff v.name k,
  str_eq_iff w.name k,
)

last_named-sort_by_name :
    (k : Bytes) (vs : List Volume) → Distinct vs → last_named k (sort_by_name vs) ≡ last_named k vs
unfolding sort_by_name
last_named-sort_by_name k [] _ = refl
last_named-sort_by_name k (v ∷ vs) (fresh, d) =
    last_named-insert_sorted k v (sort_by_name vs) (last_named-sort_by_name v.name vs d ∙ fresh)
    ∙ rw (last_named-cons k v (sort_by_name vs), last_named-sort_by_name k vs d)
        (rw (last_named-cons k v vs))

Above-insert_sorted :
    (n : Bytes) (v : Volume) (vs : List Volume)
    → str_lt n v.name ≡ true
    → Above n vs
    → Above n (insert_sorted v vs)
unfolding insert_sorted
Above-insert_sorted n v [] h _ = (h, tt)
Above-insert_sorted n v (w ∷ ws) h (a, as') = ground (arith, Above-insert_sorted n v ws h as')

Above-trans : (n k : Bytes) (vs : List Volume) → str_lt n k ≡ true → Above k vs → Above n vs
Above-trans n k [] h _ = tt
Above-trans n k (v ∷ vs) h (a, as') = (str_lt_trans n k v.name h a, Above-trans n k vs h as')

insert_sorted-IsSorted :
    (v : Volume) (vs : List Volume)
    → last_named v.name vs ≡ none
    → IsSorted vs
    → IsSorted (insert_sorted v vs)
unfolding insert_sorted last_named
insert_sorted-IsSorted v [] h _ = (tt, tt)
insert_sorted-IsSorted v (w ∷ ws) h (a, s) = elim (Bool-cases (str_lt w.name v.name)) [
  | inl less ↦
      rw less (Above-insert_sorted w.name v ws less a, insert_sorted-IsSorted v ws (ground arith) s)
  | inr more ↦
      let below : str_lt v.name w.name ≡ true =
        str_lt_connected w.name v.name more (ground arith) in
      rw more ((below, Above-trans v.name w.name ws below a), (a, s))
]

sort_by_name-IsSorted : (vs : List Volume) → Distinct vs → IsSorted (sort_by_name vs)
unfolding sort_by_name
sort_by_name-IsSorted [] _ = tt
sort_by_name-IsSorted (v ∷ vs) (fresh, d) =
    insert_sorted-IsSorted v (sort_by_name vs) (last_named-sort_by_name v.name vs d ∙ fresh)
      (sort_by_name-IsSorted vs d)

last_named-values :
    (k : Bytes) (m : Map Volume)
    → NodupKeys m
    → EachOf Named m
    → last_named k (values m) ≡ lookup k m
unfolding last_named values lookup
last_named-values k [] _ _ = refl
last_named-values k ((j, v) ∷ m) (fresh, u) (e, es) =
    ground (arith, last_named-values k m u es, str_eq_iff j k, str_eq_iff v.name k)

Distinct-values : (m : Map Volume) → NodupKeys m → EachOf Named m → Distinct (values m)
unfolding values
Distinct-values [] _ _ = tt
Distinct-values ((j, v) ∷ m) (fresh, u) (e, es) =
    (rw (e, last_named-values j m u es) fresh, Distinct-values m u es)

-- In a map whose volumes stand under their names, the sorted volumes are those of the map.
pub last_named-sorted_volumes :
    (k : Bytes) (m : Map Volume)
    → NodupKeys m
    → EachOf Named m
    → last_named k (sorted_volumes m) ≡ lookup k m
unfolding sorted_volumes
last_named-sorted_volumes k m u e =
    last_named-sort_by_name k (values m) (Distinct-values m u e) ∙ last_named-values k m u e

-- Where each volume stands under its own name, once, the volumes are listed and written in
-- strictly ascending order of their names.
pub sorted_volumes-IsSorted :
    (m : Map Volume) → NodupKeys m → EachOf Named m → IsSorted (sorted_volumes m)
unfolding sorted_volumes
sorted_volumes-IsSorted m u e = sort_by_name-IsSorted (values m) (Distinct-values m u e)
