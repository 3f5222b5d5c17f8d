-- ===== src/Header/Invariant.antt =====
-- Every operation leaves a header with canonical keys.
use compute_sdk_go.Common.{inl, inr, List, [], ◌∷◌, Bytes, same, Bool-cases}
use compute_sdk_go.Header.{
  Header, keys, values, put, delete, add, set, del, add_all, apply_keys, apply, clone, reset,
  del_keys, canonical_header_key,
}
use compute_sdk_go.Header.Keys.{canonical_header_key_lem}
use compute_sdk_go.Header.Copies.{IsCanonicalKey, AllCanonical}

put-AllCanonical :
    (k : Bytes) (vs : List Bytes) (h : Header)
    → IsCanonicalKey k
    → AllCanonical h
    → AllCanonical (put k vs h)
unfolding put
put-AllCanonical k vs [] ck c = (ck, tt)
put-AllCanonical k vs ((j, old) ∷ h) ck (cj, c) = elim (Bool-cases (same j k)) [
  | inl e ↦ rw e (cj, c)
  | inr e ↦ rw e (cj, put-AllCanonical k vs h ck c)
]

delete-AllCanonical : (k : Bytes) (h : Header) → AllCanonical h → AllCanonical (delete k h)
unfolding delete
delete-AllCanonical k [] c = tt
delete-AllCanonical k ((j, old) ∷ h) (cj, c) = elim (Bool-cases (same j k)) [
  | inl e ↦ rw e (delete-AllCanonical k h c)
  | inr e ↦ rw e (cj, delete-AllCanonical k h c)
]

add-AllCanonical : (k v : Bytes) (h : Header) → AllCanonical h → AllCanonical (add k v h)
unfolding add
add-AllCanonical k v h c =
    put-AllCanonical (canonical_header_key k) _ h (canonical_header_key_lem k).0 c

del-AllCanonical : (k : Bytes) (h : Header) → AllCanonical h → AllCanonical (del k h)
unfolding del
del-AllCanonical k h c = delete-AllCanonical (canonical_header_key k) h c

add_all-AllCanonical :
    (k : Bytes) (vs : List Bytes) (h : Header) → AllCanonical h → AllCanonical (add_all k vs h)
add_all-AllCanonical k [] h c = c
add_all-AllCanonical k (v ∷ vs) h c =
    add_all-AllCanonical k vs (add k v h) (add-AllCanonical k v h c)

apply_keys-AllCanonical :
    (ks : List Bytes) (hs h : Header) → AllCanonical h → AllCanonical (apply_keys ks hs h)
apply_keys-AllCanonical [] hs h c = c
apply_keys-AllCanonical (k ∷ ks) hs h c =
    apply_keys-AllCanonical ks hs _
      (add_all-AllCanonical k (values k hs) _ (del-AllCanonical k h c))

del_keys-AllCanonical :
    (ks : List Bytes) (h : Header) → AllCanonical h → AllCanonical (del_keys ks h)
del_keys-AllCanonical [] h c = c
del_keys-AllCanonical (k ∷ ks) h c = del_keys-AllCanonical ks (del k h) (del-AllCanonical k h c)

-- The operations on a header, as they are called.
pub data HeaderOp : Type 0 where
  op_add op_set : Bytes → Bytes → HeaderOp
  op_del : Bytes → HeaderOp
  op_apply op_reset : Header → HeaderOp
  op_clone : HeaderOp

unfoldable pub run_op : HeaderOp → Header → Header
unfolding add set del apply reset clone
run_op (op_add k v) h = add k v h
run_op (op_set k v) h = set k v h
run_op (op_del k) h = del k h
run_op (op_apply hs) h = apply hs h
run_op (op_reset hs) h = reset hs h
run_op op_clone h = clone h

unfoldable pub run_ops : List HeaderOp → Header → Header
unfolding run_op
run_ops [] h = h
run_ops (o ∷ os) h = run_ops os (run_op o h)

run_op-AllCanonical : (o : HeaderOp) (h : Header) → AllCanonical h → AllCanonical (run_op o h)
unfolding run_op set apply reset clone
run_op-AllCanonical (op_add k v) h c = add-AllCanonical k v h c
run_op-AllCanonical (op_set k v) h c =
    put-AllCanonical (canonical_header_key k) (v ∷ []) h (canonical_header_key_lem k).0 c
run_op-AllCanonical (op_del k) h c = del-AllCanonical k h c
run_op-AllCanonical (op_apply hs) h c = apply_keys-AllCanonical (keys hs) hs h c
run_op-AllCanonical (op_reset hs) h c =
    apply_keys-AllCanonical (keys hs) hs _ (del_keys-AllCanonical (keys h) h c)
run_op-AllCanonical op_clone h c = apply_keys-AllCanonical (keys h) h [] tt

-- A header that starts empty has canonical keys only after any run of `Add`, `Set`, `Del`,
-- `Apply`, `Reset` and `Clone`, whatever the keys of the calls and of the other headers are.
pub run_ops-AllCanonical :
    (os : List HeaderOp) (h : Header) → AllCanonical h → AllCanonical (run_ops os h)
unfolding run_ops
run_ops-AllCanonical [] h c = c
run_ops-AllCanonical (o ∷ os) h c = run_ops-AllCanonical os (run_op o h) (run_op-AllCanonical o h c)
