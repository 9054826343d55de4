-- ===== src/Context/Derive/Metadata.antt =====
-- The size limit of a context's metadata.
use Prim.Native.String.{len}
use chukrun.Base.{
  ◌+◌, ◌-◌, ◌≤◌, ◌<◌, ◌≡◌, refl, ap, inl, inr, String, false, [], ◌∷◌, some, arith, ltb, str_eq,
  eq_iff, Bool-cases, if◌then◌else◌, ltb→lt,
}
use chukrun.Base.Dict.{Dict, lookup, insert, lookup-insert}
use chukrun.Errors.{GoError, nil, is_nil}
use chukrun.Context.Layers.{Ctx, layer_metadata, get_metadata}
use chukrun.Context.Derive.{
  metadata_size, old_entry_size, entry_size, metadata_limit, with_metadata, layer_or_zero,
}

-- The metadata of a context are within the limit.
abbrev pub IsBounded : Ctx → Type 0
IsBounded ctx = metadata_size (layer_metadata ctx.request) ≤ metadata_limit

-- A write replaces the old entry of its key in the size, if there is one.
pub metadata_size-insert :
    (key value : String) (m : Dict String)
    → metadata_size (insert key value m) + old_entry_size key m
      ≡ metadata_size m + entry_size key value
unfolding metadata_size insert lookup
metadata_size-insert key value [] = omega arith
metadata_size-insert key value ((name, old) ∷ rest) = elim (Bool-cases (str_eq name key)) [
  | inl same ↦
      let e : len name ≡ len key = ap len ((eq_iff name key).0 same) in
      rw (old_entry_size, same) (omega (arith, e))
  | inr other ↦ rw (old_entry_size, other) (omega (arith, metadata_size-insert key value rest))
]

-- What `WithMetadata` does: it stores the entry and nothing else, and the metadata keep to the
-- limit; or they would exceed it with the entry, and it answers an error and the same context.
pub data Stored (ctx : Ctx) (key value : String) : Ctx × GoError → Type 0 where
  stored :
      {ctx' : Ctx}
      → ((asked : String)
          → get_metadata ctx' asked
            ≡ (if str_eq key asked then some value else get_metadata ctx asked))
      → IsBounded ctx'
      → ctx' ≡ record ctx {
        request = some (record (layer_or_zero ctx.request) {
          metadata = some (insert key value (layer_metadata ctx.request));
        });
      }
      → Stored ctx key value (ctx', nil)
  refused :
      (err : GoError)
      → is_nil err ≡ false
      → metadata_limit < metadata_size (insert key value (layer_metadata ctx.request))
      → Stored ctx key value (ctx, err)

-- Bytes of the entry that a key has, which stand in the metadata's size.
old_entry-le : (key : String) (m : Dict String) → old_entry_size key m ≤ metadata_size m
unfolding metadata_size lookup
old_entry-le key [] = omega arith
old_entry-le key ((name, old) ∷ rest) = elim (Bool-cases (str_eq name key)) [
  | inl same ↦
      let e : len name ≡ len key = ap len ((eq_iff name key).0 same) in
      rw (old_entry_size, same) (omega (arith, e))
  | inr other ↦ rw (old_entry_size, other) (omega (arith, old_entry-le key rest))
]

-- The size that `WithMetadata` computes is that of the metadata with the entry.
pub computed_size :
    (key value : String) (m : Dict String)
    → metadata_size m - old_entry_size key m + entry_size key value
      ≡ metadata_size (insert key value m)
computed_size key value m = omega (arith, metadata_size-insert key value m, old_entry-le key m)

-- `WithMetadata` writes the entry and nothing else, within the limit of 4096 bytes for all the keys
-- and values, or it refuses, exactly when the limit would be exceeded, and changes nothing.
pub with_metadata-Stored :
    (ctx : Ctx) (key value : String) → Stored ctx key value (with_metadata ctx key value)
unfolding with_metadata get_metadata
with_metadata-Stored ctx key value =
    let m = layer_metadata ctx.request in
    elim (Bool-cases (ltb metadata_limit (metadata_size (insert key value m)))) [
      | inl over ↦
          rw (with_metadata, computed_size key value m, over)
            (refused _ refl (ltb→lt metadata_limit (metadata_size (insert key value m)) over))
      | inr fits ↦
          rw (with_metadata, computed_size key value m, fits)
            (stored (λ asked. lookup-insert key asked value m) (ground (arith, fits)) refl)
    ]
