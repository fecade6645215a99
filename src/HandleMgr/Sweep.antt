-- ===== src/HandleMgr/Sweep.antt =====
-- What a sweep leaves of the two maps.
use archive_aaf_sshsm.Common.{
  ℕ, ◌≡◌, refl, ◌∙◌, ap, Bool, Option, none, some, [], ◌∷◌, arith, ◌==◌, if◌then◌else◌,
}
use archive_aaf_sshsm.Common.Map.{Map, lookup, Unique, lookup-erase, erase-Unique}
use archive_aaf_sshsm.HandleMgr.{Handle, HandleManager, forget, sweep}

-- An entry that the test selects is gone, the others stay.
abbrev pub kept : (Handle → Bool) → Option Handle → Option Handle
kept test none = none
kept test (some e) = if test e then none else some e

-- Does an entry under this key satisfy the test?
abbrev hit : (Handle → Bool) → Map Handle → ℕ → Option Handle → Option Handle
hit test [] j o = o
hit test ((k, e) ∷ rest) j o = hit test rest j (if test e then (if k == j then none else o) else o)

handles-sweep :
    (test : Handle → Bool) (es : Map Handle) (m : HandleManager) (j : ℕ)
    → lookup j (sweep test es m).handles ≡ hit test es j (lookup j m.handles)
unfolding sweep
handles-sweep test [] m j = refl
handles-sweep test ((k, e) ∷ rest) m j =
    handles-sweep test rest (if test e then forget k e m else m) j
    ∙ ap (hit test rest j) (ground (arith, lookup-erase k j m.handles))

hit-none : (test : Handle → Bool) (es : Map Handle) (j : ℕ) → hit test es j none ≡ none
hit-none test [] j = refl
hit-none test ((k, e) ∷ rest) j = ground (arith, hit-none test rest j)

hit_absent :
    (test : Handle → Bool) (es : Map Handle) (j : ℕ) (o : Option Handle)
    → lookup j es ≡ none
    → hit test es j o ≡ o
hit_absent test [] j o h = refl
hit_absent test ((k, e) ∷ rest) j o h = ground (arith, hit_absent test rest j o)

hit_self :
    (test : Handle → Bool) (es : Map Handle) (j : ℕ) (o : Option Handle)
    → Unique es
    → lookup j es ≡ o
    → hit test es j o ≡ kept test o
hit_self test [] j o u h = ground arith
hit_self test ((k, e) ∷ rest) j o u h =
    ground (arith, hit_self test rest j o u.1, hit-none test rest j, hit_absent test rest j o)

-- A sweep over the table itself removes exactly the selected entries.
pub lookup-sweep :
    (test : Handle → Bool) (m : HandleManager) (j : ℕ)
    → Unique m.handles
    → lookup j (sweep test m.handles m).handles ≡ kept test (lookup j m.handles)
lookup-sweep test m j u =
    handles-sweep test m.handles m j ∙ hit_self test m.handles j (lookup j m.handles) u refl

pub sweep-Unique :
    (test : Handle → Bool) (es : Map Handle) (m : HandleManager)
    → Unique m.handles
    → Unique (sweep test es m).handles
unfolding sweep
sweep-Unique test [] m u = u
sweep-Unique test ((k, e) ∷ rest) m u =
    sweep-Unique test rest (if test e then forget k e m else m)
      (ground (arith, erase-Unique k m.handles u))

pub counter-sweep :
    (test : Handle → Bool) (es : Map Handle) (m : HandleManager)
    → (sweep test es m).handle_counter ≡ m.handle_counter
unfolding sweep
counter-sweep test [] m = refl
counter-sweep test ((k, e) ∷ rest) m =
    ground (arith, counter-sweep test rest (if test e then forget k e m else m))
