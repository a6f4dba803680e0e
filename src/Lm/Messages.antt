-- ===== src/Lm/Messages.antt =====
-- A connection of server/lm.go, and what `LM_Restore` sends to and reads from the dump service on one.
use container_cloudlet.Common.{
  ℕ, zero, suc, not, Option, none, some, List, [], ◌∷◌, ◌++◌ as append, pos, if◌then◌else◌, ◌==◌,
  nat_eq, string_eq,
}
use container_cloudlet.Go.{GoError, Result, ok, fail, new_error, eof, Try, return, call, ◌>>◌}
use container_cloudlet.Io.{ReadResult, readline}
use container_cloudlet.Types.{Deploy}
use container_cloudlet.Lm.{req_pre_dump, resp_ok}

-- `net.Conn`: `Write`, a `Read` into a buffer of one byte, what a scanner's reads yield, `Close`.
pub record Conn (W : Type 0) : Type 0 where
  pub write : List ℕ → W → Option GoError × W
  pub read_byte : W → (Option ℕ × Option GoError) × W
  pub reads : W → List ReadResult × W
  pub close : W → W

-- The reads of a connection up to its end.
abbrev pub to_end : List ReadResult → List ReadResult
to_end rs = append rs ((record { bytes = []; error = some eof }) ∷ [])

-- The end of the input is among the reads, so the scanner always answers.
abbrev answered : Option (Result (List ℕ)) → Result (List ℕ)
answered none = fail eof
answered (some r) = r

unfoldable pub readline_conn : {W : Type 0} → Conn W → Try W (List ℕ)
unfolding readline
readline_conn c w = let (rs, w') = c.reads w in (answered (readline (to_end rs)), w')

abbrev pub no_deploy : Deploy
no_deploy = record {
  name = "";
  deploy_type = "";
  new_app = record { image = ""; port = record { in_port = pos 0; ext_port = pos 0 }; env = [] };
  fwd = record { src_addr = ""; port = record { in_port = pos 0; ext_port = pos 0 } };
  lm = record {
    image = "";
    src_addr = "";
    src_name = "";
    port = record { in_port = pos 0; ext_port = pos 0 };
    dst_addr = "";
    env = [];
    bw_limit = pos 0;
    iteration = pos 0;
  };
  fwd_lm = record {
    image = "";
    src_addr = "";
    src_name = "";
    src_port = pos 0;
    port = record { in_port = pos 0; ext_port = pos 0 };
    dst_addr = "";
    env = [];
    bw_limit = pos 0;
    iteration = pos 0;
    data_rate = pos 0;
  };
}

-- `Read` yields no byte.
abbrev pub no_byte : Option GoError → Result (Unit {0})
no_byte (some e) = fail e
no_byte none = fail (new_error "Read 0 bytes")

abbrev pub check_reply : Option ℕ × Option GoError → Result (Unit {0})
check_reply (none, e) = no_byte e
check_reply (some b, e) =
    if not (b == resp_ok) then fail (new_error "Dump service respond an error") else ok tt

module _ {W : Type 0} where
  unfoldable pub read_reply : Conn W → Try W (Unit {0})
  read_reply c w = let (r, w') = c.read_byte w in (check_reply r, w')

  unfoldable pub send_dump_service_request : Conn W → ℕ → Try W (Unit {0})
  unfolding read_reply
  send_dump_service_request c req = do call (c.write (req ∷ [])); read_reply c

  -- The loop over the pre-dumps, `n` of which are left.
  unfoldable pub pre_dumps : Conn W → ℕ → Try W (Unit {0})
  pre_dumps c zero = return tt
  pre_dumps c (suc n) = do send_dump_service_request c req_pre_dump; pre_dumps c n
