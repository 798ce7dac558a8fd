-- ===== src/SlotData/Library.antt =====
-- The operations of nlohmann::json that src/mth/core/ap/slot_data.cpp and the network link call,
-- as an interface: what a value holds is the library's affair. A call that throws gives `none`.
use mth_apclient.Base.{Bool, Option, List, ℤ, Bytes}

pub record JsonLibrary : Type 1 where
  pub Json : Type 0
  pub is_null : Json → Bool
  pub is_object : Json → Bool
  pub dump : Json → Bytes
  -- the constructor of a text
  pub parse : Bytes → Option Json
  -- a member of an object, where there is one
  pub find : Json → Bytes → Option Json
  -- `value` with an integer for a default
  pub value : Json → Bytes → ℤ → Option ℤ
  -- the elements, where the value is an array
  pub elements : Json → Option (List Json)
  -- the values that the iterators of a value visit
  pub iterate : Json → List Json
  pub is_number_integer : Json → Bool
  pub get_int : Json → ℤ
  pub get_int64 : Json → ℤ
  -- the text, where the value is one
  pub string : Json → Option Bytes
  -- what the exception says that reading the value threw
  pub what : Json → Bytes
