-- ===== src/Lpdu/Data.antt =====
-- The structures of src/lpdu.c.
use dumphfdl.Common.{ℕ, Bool, Option, List}
use dumphfdl.Pdu.{HdrData}

-- The union: icao_address; icao_address and ac_id; icao_address and reason_code.
pub data LpduData : Type 0 where
  no_data : LpduData
  logon_request : ℕ → LpduData
  logon_confirm : ℕ → ℕ → LpduData
  logoff_request : ℕ → ℕ → LpduData

-- What a field parser fills in and returns; `none` is -1.
pub record Fields (A : Type 0) : Type 0 where
  pub contents : A
  pub consumed_len : Option ℕ

pub record LpduMsg : Type 0 where
  pub pdu : List ℕ
  pub mpdu_header : HdrData
  pub type_id : ℕ
  pub crc_ok : Bool
  pub err : Bool
  pub contents : LpduData

-- The LPDU's node and the one after it.
pub record LpduNode (N : Type 0) : Type 0 where
  pub msg : LpduMsg
  pub next : Option N
