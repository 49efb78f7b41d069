-- ===== src/Shared/Reason.antt =====
-- shared/reason-codes.ts: the stable reason codes and the verdict of each.
use razorpay_hackathon.Base.{String}

pub data Verdict : Type 0 where
  allow deny step_up : Verdict

pub data ReasonCode : Type 0 where
  ok_000 : ReasonCode
  aut_001 aut_002 : ReasonCode
  mnd_001 mnd_002 mnd_003 : ReasonCode
  lmt_001 lmt_002 lmt_003 lmt_004 lmt_005 : ReasonCode
  scp_001 scp_002 : ReasonCode
  int_001 int_002 int_003 int_004 : ReasonCode
  sec_001 sec_002 sec_003 sec_004 : ReasonCode
  sys_001 sys_002 sys_003 : ReasonCode
  stp_001 stp_002 stp_003 : ReasonCode

-- The table `VERDICT_FOR_REASON`.
abbrev pub verdict_for_reason : ReasonCode → Verdict
verdict_for_reason ok_000 = allow
verdict_for_reason stp_001 = step_up
verdict_for_reason stp_002 = step_up
verdict_for_reason stp_003 = step_up
verdict_for_reason _ = deny

-- The text of a code, as it stands in the source, the API and the ledger.
unfoldable pub code_text : ReasonCode → String
code_text ok_000 = "OK-000"
code_text aut_001 = "AUT-001"
code_text aut_002 = "AUT-002"
code_text mnd_001 = "MND-001"
code_text mnd_002 = "MND-002"
code_text mnd_003 = "MND-003"
code_text lmt_001 = "LMT-001"
code_text lmt_002 = "LMT-002"
code_text lmt_003 = "LMT-003"
code_text lmt_004 = "LMT-004"
code_text lmt_005 = "LMT-005"
code_text scp_001 = "SCP-001"
code_text scp_002 = "SCP-002"
code_text int_001 = "INT-001"
code_text int_002 = "INT-002"
code_text int_003 = "INT-003"
code_text int_004 = "INT-004"
code_text sec_001 = "SEC-001"
code_text sec_002 = "SEC-002"
code_text sec_003 = "SEC-003"
code_text sec_004 = "SEC-004"
code_text sys_001 = "SYS-001"
code_text sys_002 = "SYS-002"
code_text sys_003 = "SYS-003"
code_text stp_001 = "STP-001"
code_text stp_002 = "STP-002"
code_text stp_003 = "STP-003"

unfoldable pub verdict_text : Verdict → String
verdict_text allow = "ALLOW"
verdict_text deny = "DENY"
verdict_text step_up = "STEP_UP"
