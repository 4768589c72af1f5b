-- ===== src/Api/Calls.antt =====
-- The calls that the pages make through web/src/lib/api.ts: a path, a method and the fields of the
-- body, before the body is turned into text.
use go_drive.Base.{ℕ, String, Bool, Dict}

-- A field of a body.
pub data Json : Type 0 where
  text : String → Json
  number : ℕ → Json
  bool : Bool → Json

pub record Call : Type 0 where
  pub path : String
  pub method : String
  pub body : Dict Json
