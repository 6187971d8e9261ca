-- ===== src/Filters/Tests.antt =====
-- Runs of include/jay/filters.hpp.
use Prim.Native.Nat.{bit_and}
use jay.Base.{◌%◌, ◌^◌, ◌≡◌, refl, ◌==◌, false}
use jay.Header.{is_request, is_claim}
use jay.Header.Plain.{plain}
use jay.Filters.Defs.{Parts, FilterLib, make_address_request_filter, make_address_claim_filter}
use jay.Filters.Passing.{passes-make_filter}

-- A filter that is its parts.
abbrev plain_filter : FilterLib
plain_filter = record {
  Filter = Parts;
  default = record {
    filter_id = 0;
    filter_mask = 0;
    remote = false;
    extended = false;
    negated = false;
  };
  id = λ x f. record f { filter_id = x % 2 ^ 29 };
  id_mask = λ x f. record f { filter_mask = x % 2 ^ 29 };
  remote_transmission = λ b f. record f { remote = b };
  extended_format = λ b f. record f { extended = b };
  negation = λ b f. record f { negated = b };
  passes = λ f x. bit_and x f.filter_mask == bit_and f.filter_id f.filter_mask;
  get = λ f. f;
  get-id = λ x f. refl;
  get-id_mask = λ x f. refl;
  get-remote_transmission = λ b f. refl;
  get-extended_format = λ b f. refl;
  get-negation = λ b f. refl;
  passes-extended = λ f x h e r n. refl;
}

-- A request to all, from the address 0x21.
passes-make_filter_example :
    (plain_filter.passes (make_address_request_filter plain_filter) (plain.get_id (0x18EAFF21, 3))
      ≡ is_request plain (0x18EAFF21, 3))
    × (plain_filter.passes (make_address_claim_filter plain_filter) (plain.get_id (0x18EAFF21, 3))
        ≡ is_claim plain (0x18EAFF21, 3))
passes-make_filter_example = passes-make_filter plain_filter plain (0x18EAFF21, 3)
