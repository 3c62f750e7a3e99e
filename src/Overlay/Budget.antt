-- ===== src/Overlay/Budget.antt =====
-- internal/symbolicoverlay/extract.go: the number of the symbols of an artifact.
use g_lm.Prelude.{
  ℕ, zero, suc, ◌+◌, ◌-◌, ◌≡◌, ◌≤◌, refl, subst, inl, inr, Bool, true, false, List, [], ◌∷◌, ◌++◌,
  any, length, take, leb, ltb, arith, Bool-cases, if◌then◌else◌,
}
use g_lm.Prelude.Int.{pos_part}
use g_lm.Prelude.Texts.{Text, lit, text_eq, text_eq_iff, text_eq_comm}
use g_lm.Overlay.Options.{NormalizedOptions}
use g_lm.Overlay.Accepted.{AreTypes}
use g_lm.Overlay.Artifact.{LogicMap, OverlayArtifact}
use g_lm.Overlay.Extract.{
  fit, all_entities, all_links, all_constraints, all_risks, extract_logic_map,
  extract_constraint_set, extract_risk_lens,
}
use g_lm.Overlay.Build.{Building, empty_artifact, add_type, add_types, build_artifact}

abbrev pub logic_count : LogicMap → ℕ
logic_count m = length m.entities + length m.links

abbrev pub symbol_count : OverlayArtifact → ℕ
symbol_count a = logic_count a.logic_map + length a.constraint_set + length a.risk_lens

length-take : {A : Type 0} → (n : ℕ) (xs : List A) → n ≤ length xs → length (take n xs) ≡ n
length-take zero xs h = refl
length-take (suc n) [] h = omega (arith, h)
length-take (suc n) (x ∷ xs) h = omega (arith, length-take n xs (omega (arith, h)))

fit_lem :
    {A : Type 0}
    → (max : ℕ) (xs : List A) → (length (fit max xs).0 ≡ (fit max xs).1) × ((fit max xs).1 ≤ max)
fit_lem max xs = elim (Bool-cases (ltb max (length xs))) [
  | inl e ↦ rw e (length-take max xs (ground (arith, e)), omega arith)
  | inr e ↦ rw e (refl, ground (arith, e))
]

extract_logic_map_lem :
    (sources : List Text) (max : ℕ)
    → let found = extract_logic_map sources max in (logic_count found.0 ≡ found.1) × (found.1 ≤ max)
unfolding extract_logic_map
extract_logic_map_lem sources max =
    let entities = all_entities sources in
    let (same, within) = fit_lem (max - length entities) (all_links sources) in
    elim (Bool-cases (leb max 0)) [
      | inl e ↦ rw (e, extract_logic_map) (refl, omega arith)
      | inr e ↦ elim (Bool-cases (ltb max (length entities))) [
        | inl f ↦
            let cut = length-take max entities (ground (arith, f)) in
            rw (e, f, extract_logic_map) (omega (arith, cut), omega arith)
        | inr f ↦ rw (e, f, extract_logic_map) (omega (arith, same), ground (arith, f, within))
      ]
    ]

extract_constraint_set_lem :
    (sources : List Text) (max : ℕ)
    → let found = extract_constraint_set sources max in (length found.0 ≡ found.1) × (found.1 ≤ max)
unfolding extract_constraint_set
extract_constraint_set_lem sources max = elim (Bool-cases (leb max 0)) [
  | inl e ↦ rw (e, extract_constraint_set) (refl, omega arith)
  | inr e ↦ rw (e, extract_constraint_set) (fit_lem max (all_constraints sources))
]

extract_risk_lens_lem :
    (sources : List Text) (max : ℕ)
    → let found = extract_risk_lens sources max in (length found.0 ≡ found.1) × (found.1 ≤ max)
unfolding extract_risk_lens
extract_risk_lens_lem sources max = elim (Bool-cases (leb max 0)) [
  | inl e ↦ rw (e, extract_risk_lens) (refl, omega arith)
  | inr e ↦ rw (e, extract_risk_lens) (fit_lem max (all_risks sources))
]

-- The symbols and what remains make up the limit, and a type that has not been seen has no symbols.
record IsBuilding (max : ℕ) (seen : List Text) (b : Building) : Type 0 where
  total : symbol_count b.artifact + b.remaining ≡ max
  no_logic : any (text_eq (lit "logic_map")) seen ≡ false → logic_count b.artifact.logic_map ≡ 0
  no_constraint :
      any (text_eq (lit "constraint_set")) seen ≡ false → length b.artifact.constraint_set ≡ 0
  no_risk : any (text_eq (lit "risk_lens")) seen ≡ false → length b.artifact.risk_lens ≡ 0

-- A type that has not been seen is new under its name.
new_type :
    (t name : Text) (seen : List Text)
    → text_eq t name ≡ true
    → any (text_eq t) seen ≡ false
    → any (text_eq name) seen ≡ false
new_type t name seen e h = subst (λ n. any (text_eq n) seen ≡ false) ((text_eq_iff t name).0 e) h

older :
    (t name : Text) (seen : List Text)
    → any (text_eq name) (t ∷ seen) ≡ false
    → any (text_eq name) seen ≡ false
unfolding any
older t name seen h = ground arith

seen_type :
    (t name : Text) (seen : List Text)
    → text_eq t name ≡ true
    → any (text_eq name) (t ∷ seen) ≡ false
    → ⊥
unfolding any
seen_type t name seen e h = ground (arith, text_eq_comm t name)

add_type-IsBuilding :
    (sources : List Text) (max : ℕ) (seen : List Text) (t : Text) (b : Building)
    → IsBuilding max seen b
    → any (text_eq t) seen ≡ false
    → IsBuilding max (t ∷ seen) (add_type sources t b)
unfolding add_type
add_type-IsBuilding sources max seen t b i h =
    let before = λ (name : Text). older t name seen in
    elim (Bool-cases (text_eq t (lit "logic_map"))) [
      | inl e ↦
          let (same, within) = extract_logic_map_lem sources b.remaining in
          let unused = i.no_logic (new_type t (lit "logic_map") seen e h) in
          rw (e, add_type)
            (record {
              total = omega (arith, i.total, same, within, unused);
              no_logic = λ k. absurd (seen_type t (lit "logic_map") seen e k);
              no_constraint = λ k. i.no_constraint (before (lit "constraint_set") k);
              no_risk = λ k. i.no_risk (before (lit "risk_lens") k);
            })
      | inr e ↦ elim (Bool-cases (text_eq t (lit "constraint_set"))) [
        | inl f ↦
            let (same, within) = extract_constraint_set_lem sources b.remaining in
            let unused = i.no_constraint (new_type t (lit "constraint_set") seen f h) in
            rw (e, f, add_type)
              (record {
                total = omega (arith, i.total, same, within, unused);
                no_logic = λ k. i.no_logic (before (lit "logic_map") k);
                no_constraint = λ k. absurd (seen_type t (lit "constraint_set") seen f k);
                no_risk = λ k. i.no_risk (before (lit "risk_lens") k);
              })
        | inr f ↦ elim (Bool-cases (text_eq t (lit "risk_lens"))) [
          | inl g ↦
              let (same, within) = extract_risk_lens_lem sources b.remaining in
              let unused = i.no_risk (new_type t (lit "risk_lens") seen g h) in
              rw (e, f, g, add_type)
                (record {
                  total = omega (arith, i.total, same, within, unused);
                  no_logic = λ k. i.no_logic (before (lit "logic_map") k);
                  no_constraint = λ k. i.no_constraint (before (lit "constraint_set") k);
                  no_risk = λ k. absurd (seen_type t (lit "risk_lens") seen g k);
                })
          | inr g ↦
              rw (e, f, g, add_type)
                (record {
                  total = i.total;
                  no_logic = λ k. i.no_logic (before (lit "logic_map") k);
                  no_constraint = λ k. i.no_constraint (before (lit "constraint_set") k);
                  no_risk = λ k. i.no_risk (before (lit "risk_lens") k);
                })
        ]
      ]
    ]

abbrev Totals : ℕ → Building → Type 0
Totals max b = symbol_count b.artifact + b.remaining ≡ max

if-Totals :
    (max : ℕ) (p : Bool) (b c : Building)
    → Totals max b
    → Totals max c
    → Totals max (if p then b else c)
if-Totals max true b c h k = h
if-Totals max false b c h k = k

add_types-Totals :
    (sources : List Text) (max : ℕ) (seen ts : List Text) (b : Building)
    → IsBuilding max seen b
    → AreTypes seen ts
    → Totals max (add_types sources ts b)
unfolding add_types
add_types-Totals sources max seen [] b i h = i.total
add_types-Totals sources max seen (t ∷ ts) b i (known, new, more) =
    let next = add_type sources t b in
    let reached = record b { flags = b.flags ++ lit "max_symbols_reached" ∷ [] } in
    if-Totals max (leb b.remaining 0) reached (add_types sources ts next) i.total (
      add_types-Totals sources max (t ∷ seen) ts next
        (add_type-IsBuilding sources max seen t b i new) more)

-- If each type stands once, the number of symbols that is reported is that of the symbols in the artifact,
-- and it is within the limit.
pub build_artifact_lem :
    (sources : List Text) (opt : NormalizedOptions)
    → AreTypes [] opt.types
    → let (artifact, flags, used) = build_artifact sources opt in
      (symbol_count artifact ≡ used) × (used ≤ pos_part opt.max_symbols)
unfolding build_artifact
build_artifact_lem sources opt h =
    let max = pos_part opt.max_symbols in
    let first : Building = record { artifact = empty_artifact opt; flags = []; remaining = max } in
    let start : IsBuilding max [] first = record {
      total = omega arith;
      no_logic = λ k. refl;
      no_constraint = λ k. refl;
      no_risk = λ k. refl;
    } in
    let total = add_types-Totals sources max [] opt.types first start h in
    (omega (arith, total), omega arith)
