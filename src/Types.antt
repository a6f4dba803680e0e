-- ===== src/Types.antt =====
-- server/types.go: the request and the response of the API, and their coding by encoding/json, which is
-- a parameter.
use container_cloudlet.Common.{ℕ, String, Bool, Option, List, ℤ}
use container_cloudlet.Go.{GoError}

abbrev pub deploy_type_new : String
deploy_type_new = "new"

abbrev pub deploy_type_fwd : String
deploy_type_fwd = "fwd"

abbrev pub deploy_type_lm : String
deploy_type_lm = "lm"

abbrev pub deploy_type_fwd_lm : String
deploy_type_fwd_lm = "fwdlm"

pub record Port : Type 0 where
  pub in_port : ℤ
  pub ext_port : ℤ

-- `Deploy.NewApp`
pub record NewApp : Type 0 where
  pub image : String
  pub port : Port
  pub env : List (String × String)

-- `Deploy.Fwd`
pub record Fwd : Type 0 where
  pub src_addr : String
  pub port : Port

-- `Deploy.LM`
pub record Lm : Type 0 where
  pub image : String
  pub src_addr : String
  pub src_name : String
  pub port : Port
  pub dst_addr : String
  pub env : List (String × String)
  pub bw_limit : ℤ
  pub iteration : ℤ

-- `Deploy.FwdLM`
pub record FwdLm : Type 0 where
  pub image : String
  pub src_addr : String
  pub src_name : String
  pub src_port : ℤ
  pub port : Port
  pub dst_addr : String
  pub env : List (String × String)
  pub bw_limit : ℤ
  pub iteration : ℤ
  pub data_rate : ℤ

pub record Deploy : Type 0 where
  pub name : String
  pub deploy_type : String
  pub new_app : NewApp
  pub fwd : Fwd
  pub lm : Lm
  pub fwd_lm : FwdLm

pub record RequestDumpStart : Type 0 where
  pub name : String
  pub dst_addr : String
  pub bw_limit : ℤ

pub record Request : Type 0 where
  pub method : String
  pub deploy : Deploy
  pub remove_name : String
  pub dump_start : RequestDumpStart

pub record Response : Type 0 where
  pub succeeded : Bool
  pub msg : String

-- encoding/json at these types.
pub record Json : Type 0 where
  pub marshal_request : Request → Option GoError × List ℕ
  pub unmarshal_request : List ℕ → Option GoError × Request
  pub marshal_response : Response → Option GoError × List ℕ
  pub unmarshal_response : List ℕ → Option GoError × Response
