-- ===== src/Resp.antt =====
-- src/protocol/types.rs: the values of the protocol. A vector of values is a list of its own, a double
-- is kept by its bit pattern, and `Array(None)` is a constructor.
pub mod Serialize
pub mod Parser
use ai_kv.Base.{ℕ, Bool, Option, none, some, List, [], ◌∷◌, ℤ}
use ai_kv.Text.{Bytes, codes}

mutual
  pub data RespValue : Type 0 where
    simple_string : Bytes → RespValue
    error : Bytes → RespValue
    integer : ℤ → RespValue
    bulk_string : Option Bytes → RespValue
    array : RespList → RespValue
    null_array : RespValue
    null : RespValue
    boolean : Bool → RespValue
    double : ℕ → RespValue
    big_number : Bytes → RespValue
    bulk_error : Bytes → RespValue
    verbatim_string : Bytes → Bytes → RespValue
    map : RespPairs → RespValue
    set : RespList → RespValue
    push : RespList → RespValue
    attribute : RespPairs → RespValue → RespValue
    streamed_string : List Bytes → RespValue

  pub data RespList : Type 0 where
    nil : RespList
    cons : RespValue → RespList → RespList

  pub data RespPairs : Type 0 where
    no_pairs : RespPairs
    pair : RespValue → RespValue → RespPairs → RespPairs

-- `RespValue::ok()`
abbrev pub ok_reply : RespValue
ok_reply = simple_string (codes "OK")

abbrev pub null_bulk_string : RespValue
null_bulk_string = bulk_string none

-- `values.into_iter().map(RespValue::bulk_string).collect()`
abbrev pub bulk_list : List Bytes → RespList
bulk_list [] = nil
bulk_list (v ∷ vs) = cons (bulk_string (some v)) (bulk_list vs)
