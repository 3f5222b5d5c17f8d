-- ===== src/Values/Tests.antt =====
-- internal/abi/fastly/types.go: tests of the iterator, and its theorem at a concrete host.
use compute_sdk_go.Common.{
  ◌≡◌, refl, List, [], ◌∷◌, false, none, some, arith, Bytes, codes, contains, drop,
}
use compute_sdk_go.Abi.Errors.{plain}
use compute_sdk_go.Common.Int.{pos}
use compute_sdk_go.Values.{MultiValueHostcall, Values, new_values, iterate}
use compute_sdk_go.Values.Contract.{Honest, Clear}
use compute_sdk_go.Values.Collect.{iterate-Honest}
use compute_sdk_go.Values.Sample.{one_by_one, one_by_one-Honest}

abbrev fields : List Bytes
fields = codes "Host" ∷ codes "X-Long-Name" ∷ []

fields-Clear : Clear fields
unfolding contains
fields-Clear = (refl, (refl, tt))

served : Honest 16 (λ c. drop c fields) (one_by_one fields)
served = one_by_one-Honest 16 fields (omega arith) (omega arith) fields-Clear

iterate-Honest_example :
    (end : Values) × (iterate (one_by_one fields) 3 17 (new_values 2) ≡ some (fields, end))
    × (end.error ≡ none)
iterate-Honest_example = iterate-Honest served 2 3 17 (omega arith) (omega arith)

-- A host that ends a value without a terminator, and says that more follows.
abbrev broken : MultiValueHostcall
broken capacity c = record { status = 0; nwritten = 3; buffer = codes "abc"; ending = pos 1 }

no_terminator :
    iterate broken 2 2 (new_values 8)
    ≡ some (
      [],
      record {
        capacity = 8;
        cursor = 1;
        pending = [];
        value = codes "abc";
        finished = false;
        error = some (plain "missing terminator");
      },
    )
unfolding iterate
no_terminator = refl
