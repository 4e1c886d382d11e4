-- ===== src/Index/Backend.antt =====
-- src/index/index_backend.hpp: the two kinds of backend behind the virtual calls. The flat one is the
-- model of Index/Flat; the operations of the HNSW one are an interface, with the contract that the
-- header states: an insertion adds a node or fails and changes nothing, and a search returns rows
-- that are not deleted.
use vector_forge.Common.{
  ℕ, zero, suc, ◌+◌, ◌<◌, ◌≤◌, ◌≡◌, Bool, false, List, [], ◌∷◌, length, inl, inr, ap, refl, ◌∙◌,
  arith,
}
use vector_forge.Core.Status.{Result, ok, ◌>>=◌, ◌>>◌, Attempts, Returns}
use vector_forge.Core.Types.{Metric}
use vector_forge.Core.Config.{HnswParams}
use vector_forge.Search.Order.{FloatOrder, Scored}
use vector_forge.Storage.Tombstones.{TombstoneSet, test}
use vector_forge.Storage.VectorStore.{VectorStore}
use vector_forge.Index.Kernels.{FloatArithmetic, QueryView, KernelTable}
use vector_forge.Index.Flat.{FlatBackend}
use vector_forge.Index.Flat

-- What a backend reads of the collection, by reference.
pub record Rows (F : Type 0) : Type 0 where
  pub vectors : VectorStore F
  pub deleted : TombstoneSet

pub record SearchKnobs : Type 0 where
  pub k : ℕ
  pub ef : ℕ

module _ {F : Type 0} (rows : Rows F) where
  -- The first `n` places of an output are rows that are stored and not deleted.
  abbrev pub AreLive : ℕ → List (Scored F) → Type 0
  AreLive zero out = Unit {0}
  AreLive (suc n) [] = ⊥
  AreLive (suc n) (x ∷ out) =
      (x.id < rows.vectors.size) × (test rows.deleted x.id ≡ false) × AreLive n out

-- HnswBackend: the operations, and what a collection relies on. `nodes` counts the nodes.
pub record HnswTable (F H : Type 0) : Type 1 where
  pub create : Rows F → Metric → Bool → HnswParams → Result H
  pub add : Rows F → H → ℕ → Result H
  pub remove : H → ℕ → H
  pub search :
      Rows F → H → QueryView F → SearchKnobs → List (Scored F) → Result (ℕ × List (Scored F))
  pub IsValid : H → Type 0
  pub nodes : H → ℕ
  pub created :
      (rows : Rows F) (metric : Metric) (normalized : Bool) (params : HnswParams)
      → Attempts (create rows metric normalized params) (λ h. IsValid h × (nodes h ≡ 0))
  pub added :
      (rows : Rows F) (h : H) (id : ℕ)
      → IsValid h
      → nodes h ≡ id
      → id + 1 ≡ rows.vectors.size
      → Attempts (add rows h id) (λ g. IsValid g × (nodes g ≡ id + 1))
  pub removed :
      (h : H) (id : ℕ) → IsValid h → IsValid (remove h id) × (nodes (remove h id) ≡ nodes h)
  pub searched :
      (rows : Rows F) (h : H) (q : QueryView F) (knobs : SearchKnobs) (out : List (Scored F))
      → IsValid h
      → nodes h ≡ rows.vectors.size
      → 1 ≤ knobs.k
      → knobs.k ≤ length out
      → Returns (search rows h q knobs out) (λ r. (r.0 ≤ knobs.k) × AreLive rows r.0 r.1)

pub data Backend (H : Type 0) : Type 0 where
  flat_backend : Metric → Bool → Backend H
  hnsw_backend : H → Backend H

abbrev pub IsFlat : {H : Type 0} → Backend H → Type 0
IsFlat (flat_backend metric normalized) = Unit {0}
IsFlat (hnsw_backend h) = ⊥

pub IsFlat-eq :
    {H : Type 0} (b : Backend H)
    → IsFlat b
    → (metric : Metric) × (normalized : Bool) × (b ≡ flat_backend metric normalized)
IsFlat-eq (flat_backend metric normalized) f = (metric, normalized, refl)
IsFlat-eq (hnsw_backend h) f = elim f [ ]

module _ {F H : Type 0} (blank : F) ⦃o : FloatOrder F⦄ (a : FloatArithmetic F)
    (kernels : KernelTable F) (hnsw : HnswTable F H) where
  -- The flat backend with its references.
  abbrev pub flat_over : Rows F → Metric → Bool → FlatBackend F
  flat_over rows metric normalized = record {
    vectors = rows.vectors;
    deleted = rows.deleted;
    metric = metric;
    normalized = normalized;
    kernels = kernels;
  }

  unfoldable pub add : Rows F → Backend H → ℕ → Result (Backend H)
  add rows (flat_backend metric normalized) id =
      Flat.add blank a (flat_over rows metric normalized) id >> ok (flat_backend metric normalized)
  add rows (hnsw_backend h) id = hnsw.add rows h id >>= λ g. ok (hnsw_backend g)

  unfoldable pub remove : Backend H → ℕ → Backend H
  remove (flat_backend metric normalized) id = flat_backend metric normalized
  remove (hnsw_backend h) id = hnsw_backend (hnsw.remove h id)

  unfoldable pub search :
      Rows F
      → Backend H
      → QueryView F
      → SearchKnobs
      → List (Scored F)
      → Result (ℕ × List (Scored F))
  search rows (flat_backend metric normalized) q knobs out =
      Flat.search blank a (flat_over rows metric normalized) q knobs.k out
  search rows (hnsw_backend h) q knobs out = hnsw.search rows h q knobs out

  -- The backend covers the rows that there are.
  abbrev pub Covers : Backend H → ℕ → Type 0
  Covers (flat_backend metric normalized) n = Unit {0}
  Covers (hnsw_backend h) n = hnsw.IsValid h × (hnsw.nodes h ≡ n)

  pub add-Covers :
      (rows : Rows F) (b : Backend H) (id : ℕ)
      → Covers b id
      → id + 1 ≡ rows.vectors.size
      → Attempts (add rows b id) (λ c. Covers c (id + 1))
  unfolding add Flat.add
  add-Covers rows (flat_backend metric normalized) id v last =
      inr (flat_backend metric normalized, ground arith, tt)
  add-Covers rows (hnsw_backend h) id v last = elim (hnsw.added rows h id v.0 v.1 last) [
    | inl (e, refused) ↦ inl (e, ap (λ m. m >>= λ g. ok (hnsw_backend g)) refused)
    | inr (g, done, covers) ↦
        inr (hnsw_backend g, ap (λ m. m >>= λ g. ok (hnsw_backend g)) done, covers)
  ]

  pub remove-Covers : (b : Backend H) (id n : ℕ) → Covers b n → Covers (remove b id) n
  unfolding remove
  remove-Covers (flat_backend metric normalized) id n v = tt
  remove-Covers (hnsw_backend h) id n v =
      ((hnsw.removed h id v.0).0, (hnsw.removed h id v.0).1 ∙ v.1)

  -- The flat backend takes every row that is the last one.
  pub add-flat :
      (rows : Rows F) (metric : Metric) (normalized : Bool) (id : ℕ)
      → id + 1 ≡ rows.vectors.size
      → add rows (flat_backend metric normalized) id ≡ ok (flat_backend metric normalized)
  unfolding add Flat.add
  add-flat rows metric normalized id last = ground arith

  pub add-IsFlat :
      (rows : Rows F) (b c : Backend H) (id : ℕ) → add rows b id ≡ ok c → IsFlat b → IsFlat c
  unfolding add Flat.add
  add-IsFlat rows (flat_backend metric normalized) c id done f =
      let same : c ≡ flat_backend metric normalized = ground arith in rw same tt
  add-IsFlat rows (hnsw_backend h) c id done f = elim f [ ]

  pub remove-IsFlat : (b : Backend H) (id : ℕ) → IsFlat b → IsFlat (remove b id)
  unfolding remove
  remove-IsFlat (flat_backend metric normalized) id f = tt
  remove-IsFlat (hnsw_backend h) id f = elim f [ ]
