-- ===== src/Machine/StateValue.antt =====
-- `StateValue` and `TransactionStatus` of sdks/typescript/src/types.ts.
use dfsm.Prelude.{String, Bool, true, false, Option, none, some, ◌==◌, if◌then◌else◌}

-- `string | { [regionOrParent: string]: StateValue }`
mutual
  pub data StateValue : Type 0 where
    leaf : String → StateValue
    node : Regions → StateValue

  pub data Regions : Type 0 where
    no_regions : Regions
    region : String → StateValue → Regions → Regions

-- `{ [key]: value }`
abbrev pub single : String → StateValue → StateValue
single k v = node (region k v no_regions)

-- `o[key]`
abbrev pub get_region : String → Regions → Option StateValue
get_region k no_regions = none
get_region k (region j v rest) = if j == k then some v else get_region k rest

-- `{ ...o, [key]: value }`
abbrev pub put_region : String → StateValue → Regions → Regions
put_region k v no_regions = region k v no_regions
put_region k v (region j w rest) =
    if j == k then region j v rest else region j w (put_region k v rest)

pub data TransactionStatus : Type 0 where
  idle in_flight completed compensating compensated failed : TransactionStatus

abbrev pub is_terminal_status : TransactionStatus → Bool
is_terminal_status completed = true
is_terminal_status compensated = true
is_terminal_status failed = true
is_terminal_status _ = false
