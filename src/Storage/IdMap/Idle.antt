-- ===== src/Storage/IdMap/Idle.antt =====
-- When no insert is in progress, and the calls after which none is.
use vector_forge.Common.{
  ℕ, ◌≡◌, ◌≢◌, true, false, some, none, arith, Option-cases, inl, inr, Bool, Bool-cases, Option,
  if◌then◌else◌, ◌==◌, not, ◌&&◌,
}
use vector_forge.Common.Dict
use vector_forge.Common.Dict.{lookup-insert, lookup-erase}
use vector_forge.Core.Status.{ErrorCode, Returns, ok, err, already_exists, invalid_argument}
use vector_forge.Core.Types.{invalid_external_id}
use vector_forge.Storage.IdMap.{
  IdMap, Entry, Reservation, find, reserve, commit, erase, empty, contains,
}
use vector_forge.Storage.IdMap.Invariant.{IsValid}
use vector_forge.Storage.IdMap.Erase.{IsPending}
use vector_forge.Storage.IdMap.Protocol.{
  Reserved, reserve-Reserved, reserve_state, reserve_entry, Restored, MayReserve,
}

-- No insert is in progress.
abbrev pub IsIdle : IdMap → Type 0
IsIdle m = (k : ℕ) (e : Entry) → Dict.lookup k m.entries ≡ some e → e.pending ≡ false

pub empty-IsIdle : IsIdle empty
unfolding Dict.lookup
empty-IsIdle k e h = cc

pub not-IsPending : (m : IdMap) (k : ℕ) → IsIdle m → ¬ IsPending m k
not-IsPending m k idle (e, at, busy) = cc (idle k e at)

-- A key that is not mapped may be reserved, and any with `upsert`.
pub MayReserve-free :
    {m : IdMap} (k : ℕ) (upsert : Bool)
    → IsValid m
    → IsIdle m
    → k ≢ invalid_external_id
    → (upsert ≡ false → find m k ≡ none)
    → MayReserve m k upsert
unfolding find
MayReserve-free {m} k upsert valid idle ne free = (
  ne,
  λ e at. (
    idle k e at,
    elim (Bool-cases upsert) [
      | inl y ↦ y
      | inr n ↦ absurd (ground (arith, free n, idle k e at, valid.new_is_pending k e))
    ],
  ),
)

pub commit-IsIdle :
    {m n t : IdMap} {r : Reservation} (k : ℕ) (upsert : Bool) (internal old : ℕ)
    → IsValid m
    → IsIdle m
    → reserve m k upsert ≡ ok (r, n)
    → commit n r internal ≡ ok (old, t)
    → IsIdle t
unfolding commit
commit-IsIdle {m} {n} {t} {r} k upsert internal old valid idle reserved done j e at =
    let state = reserve_state k upsert valid reserved in
    ground (
      arith,
      done,
      state.held.1,
      state.key,
      lookup-insert r.external j (record { current = internal; pending = false }) n.entries,
      (reserve_entry k upsert valid reserved).1,
      lookup-insert k j (record { current = r.previous; pending = true }) m.entries,
      idle j e,
    )

pub rollback-IsIdle : {m n t : IdMap} → IsIdle m → Restored m n t → IsIdle t
rollback-IsIdle idle back j e at = ground (arith, back.entries j, idle j e)

pub erase-IsIdle : {m t : IdMap} (k i : ℕ) → IsValid m → IsIdle m → erase m k ≡ ok (i, t) → IsIdle t
unfolding erase
erase-IsIdle {m} {t} k i valid idle done j e at = elim (Option-cases (Dict.lookup k m.entries)) [
  | inl none_ ↦ absurd (ground arith)
  | inr (x, at_k) ↦ ground (arith, lookup-erase k j m.entries (valid.single j), idle j e)
]

-- The error with which a key is refused.
abbrev pub refusal : IdMap → ℕ → Bool → Option ErrorCode
refusal m k upsert =
    if k == invalid_external_id
    then some invalid_argument
    else if not upsert && contains m k
    then some already_exists
    else none

module _ {m : IdMap} (k : ℕ) (upsert : Bool) (valid : IsValid m) (idle : IsIdle m) where
  pub reserve-refused : {e : ErrorCode} → refusal m k upsert ≡ some e → reserve m k upsert ≡ err e
  unfolding reserve contains find
  reserve-refused {e} h = elim (Option-cases (Dict.lookup k m.entries)) [
    | inl none_ ↦ ground arith
    | inr (x, at) ↦ ground (arith, idle k x at, valid.new_is_pending k x at)
  ]

  pub reserve-accepted : refusal m k upsert ≡ none → Returns (reserve m k upsert) (Reserved m k)
  unfolding contains
  reserve-accepted h = reserve-Reserved k upsert valid (
      MayReserve-free k upsert valid idle (ground arith) (λ off. elim (Option-cases (find m k)) [
        | inl none_ ↦ none_
        | inr (i, at) ↦ absurd (ground arith)
      ]))
