-- ===== src/Storage/IdMap/Erase.antt =====
-- Erasing a key, the errors of `reserve` and `erase`, and that no two keys share a row.
use vector_forge.Common.{
  ℕ, ◌+◌, ◌-◌, ◌≤◌, ◌≡◌, ◌≢◌, refl, Bool, true, false, none, some, ◌==◌, arith, Option-cases, inl,
  inr, ◌⊎◌, if◌then◌else◌, Bool-cases, ◌↔◌,
}
use vector_forge.Common.Dict
use vector_forge.Common.Dict.{lookup-erase}
use vector_forge.Core.Status.{err, Returns, invalid_argument, already_exists, not_found}
use vector_forge.Core.Types.{invalid_external_id, invalid_internal_id}
use vector_forge.Storage.IdMap.{Entry, IdMap, find, reserve, erase}
use vector_forge.Storage.IdMap.Invariant.{IsValid, erase-IsValid, committed}
use vector_forge.Storage.IdMap.Protocol.{MayReserve}

pub record Erased (m : IdMap) (k : ℕ) (s : ℕ × IdMap) : Type 0 where
  pub valid : IsValid s.1
  pub was : find m k ≡ some s.0
  pub maps : (j : ℕ) → find s.1 j ≡ (if j == k then none else find m j)
  pub labels : s.1.labels ≡ m.labels
  pub live : s.1.live + 1 ≡ m.live

-- The key has an insert in progress.
abbrev pub IsPending : IdMap → ℕ → Type 0
IsPending m k = (e : Entry) × (Dict.lookup k m.entries ≡ some e) × (e.pending ≡ true)

module _ {m : IdMap} (k : ℕ) (valid : IsValid m) where
  live_pos : (e : Entry) → Dict.lookup k m.entries ≡ some e → committed e ≡ true → 1 ≤ m.live
  live_pos e at c = ground (arith, valid.counted, Dict.count-erase committed k m.entries)

  -- In a valid map, a mapped key with no insert in progress is erased: its row is returned, its
  -- mapping is gone, every other mapping stays, and the map is valid and smaller by one.
  pub erase-Erased :
      (i : ℕ) → find m k ≡ some i → ¬ IsPending m k → Returns (erase m k) (Erased m k)
  unfolding erase find
  erase-Erased i mapped idle = elim (Option-cases (Dict.lookup k m.entries)) [
    | inl e ↦ absurd (ground arith)
    | inr (old, e) ↦
        let seen : (old.current == invalid_internal_id) ≡ false = ground arith in
        let calm : old.pending ≡ false = elim (Bool-cases old.pending) [
          | inl p ↦ absurd (idle (old, e, p))
          | inr p ↦ p
        ] in
        (
          (old.current, record m { entries = Dict.erase k m.entries; live = m.live - 1 }),
          ground arith,
          record {
            valid =
                erase-IsValid k valid (m.live - 1) (ground (arith, live_pos old e (ground arith)));
            was = ground arith;
            maps = λ j. ground (arith, lookup-erase k j m.entries (valid.single j));
            labels = refl;
            live = ground (arith, live_pos old e (ground arith));
          },
        )
  ]

  -- Which calls of `erase` fail, and how.
  pub erase-err :
      ((erase m k ≡ err not_found) ↔ (find m k ≡ none))
      × ((erase m k ≡ err already_exists) ↔ (
          (e : Entry) × (Dict.lookup k m.entries ≡ some e)
          × (e.current ≢ invalid_internal_id)
          × (e.pending ≡ true)))
  unfolding erase find
  erase-err = elim (Option-cases (Dict.lookup k m.entries)) [
    | inl e ↦ (
      (λ h. ground arith, λ h. ground arith),
      (λ h. absurd (ground arith), λ x. let at = x.1 in absurd (cc)),
    )
    | inr (old, e) ↦ (
      (λ h. ground arith, λ h. ground arith),
      (
        λ h. (old, e, ground arith, ground arith),
        λ x.
            let at = x.1 in
            let seen = x.2 in let busy = x.3 in let same : x.0 ≡ old = ground arith in ground arith,
      ),
    )
  ]

  -- A key may be reserved exactly if the call succeeds; a refusal changes nothing and has a reason.
  pub reserve-err :
      (upsert : Bool)
      → MayReserve m k upsert
        ⊎ ((reserve m k upsert ≡ err invalid_argument) × (k ≡ invalid_external_id))
        ⊎ ((reserve m k upsert ≡ err already_exists)
            × ((e : Entry) × (Dict.lookup k m.entries ≡ some e)
                × ((e.pending ≡ true) ⊎ (upsert ≡ false))))
  unfolding reserve
  reserve-err upsert = elim (Bool-cases (k == invalid_external_id)) [
    | inl bad ↦ inr (inl (ground arith, ground arith))
    | inr good ↦ elim (Option-cases (Dict.lookup k m.entries)) [
      | inl e ↦ inl (ground arith, λ f h. absurd (cc))
      | inr (old, e) ↦ elim (Bool-cases old.pending) [
        | inl busy ↦ inr (inr (ground arith, (old, e, inl busy)))
        | inr calm ↦ elim (Bool-cases upsert) [
          | inl yes_ ↦ inl (ground arith, λ f h. ground arith)
          | inr no_ ↦ inr (inr (ground arith, (old, e, inr no_)))
        ]
      ]
    ]
  ]

-- In a valid map, two keys with the same row are the same key.
pub find_injective :
    {m : IdMap} (j k i : ℕ) → IsValid m → find m j ≡ some i → find m k ≡ some i → j ≡ k
unfolding find
find_injective {m} j k i valid p q = elim (Option-cases (Dict.lookup j m.entries)) [
  | inl e ↦ absurd (ground arith)
  | inr (a, e) ↦ elim (Option-cases (Dict.lookup k m.entries)) [
    | inl f ↦ absurd (ground arith)
    | inr (b, f) ↦ ground (arith, valid.labelled j a e, valid.labelled k b f)
  ]
]
