-- ===== src/Admin/Json.antt =====
-- The JSON values of a dumped configuration, and the entries of an audit record.
use fuze.Prelude.{String, Bool, Option}

mutual
  pub data Json : Type 0 where
    text : String → Json
    flag : Bool → Json
    dict : Fields → Json

  pub data Fields : Type 0 where
    end : Fields
    field : String → Json → Fields → Fields

-- `{"from": left, "to": right}`, where an absent key reads as None, or the name of an event on a
-- credential.
pub data Change : Type 0 where
  changed : Option Json → Option Json → Change
  event : String → Change
  -- a bare truth value
  noted : Bool → Change
