-- ===== src/Errors.antt =====
-- The error families of the two application servers: as_app/errors.py and anti_fraud_as/errors.py,
-- both in src/. `ErrorCode` and `AsError` come from the platform library: what is kept of them is the
-- triple each member is declared with, and the arguments the servers build an error from.
use rdparty_as_poc.Prelude.{ℕ, String, Option, List, [], ◌∷◌}

pub data AsErrorCode : Type 0 where
  rule_file_unreadable rule_parse_error rule_schema_error rule_duplicate_id : AsErrorCode
  route_no_match route_rejected route_no_next_hop route_translation_failed : AsErrorCode

pub data FraudErrorCode : Type 0 where
  fraud_caller_blocked fraud_rate_exceeded fraud_reputation_low : FraudErrorCode
  fraud_data_unreadable fraud_data_schema_error fraud_no_verdict : FraudErrorCode

-- A member's value, `("AS-RULE-001", 500, "…")`.
pub record Member : Type 0 where
  pub code : String
  pub sip_status : ℕ
  pub message : String

abbrev pub as_member : AsErrorCode → Member
as_member rule_file_unreadable = record {
  code = "AS-RULE-001";
  sip_status = 500;
  message = "routing rules file cannot be read";
}
as_member rule_parse_error = record {
  code = "AS-RULE-002";
  sip_status = 500;
  message = "routing rules file is not valid YAML";
}
as_member rule_schema_error = record {
  code = "AS-RULE-003";
  sip_status = 500;
  message = "routing rules violate the schema";
}
as_member rule_duplicate_id = record {
  code = "AS-RULE-004";
  sip_status = 500;
  message = "routing rule identifier is not unique";
}
as_member route_no_match = record {
  code = "AS-ROUTE-001";
  sip_status = 404;
  message = "no routing rule matched the called number";
}
as_member route_rejected = record {
  code = "AS-ROUTE-002";
  sip_status = 603;
  message = "policy rejected the call";
}
as_member route_no_next_hop = record {
  code = "AS-ROUTE-003";
  sip_status = 480;
  message = "no next hop is available for the route";
}
as_member route_translation_failed = record {
  code = "AS-ROUTE-004";
  sip_status = 500;
  message = "number translation produced no result";
}

abbrev pub fraud_member : FraudErrorCode → Member
fraud_member fraud_caller_blocked = record {
  code = "AS-FRAUD-001";
  sip_status = 608;
  message = "calling party is on the block list";
}
fraud_member fraud_rate_exceeded = record {
  code = "AS-FRAUD-002";
  sip_status = 608;
  message = "calling party exceeded the call-rate window";
}
fraud_member fraud_reputation_low = record {
  code = "AS-FRAUD-003";
  sip_status = 608;
  message = "calling party reputation is below the threshold";
}
fraud_member fraud_data_unreadable = record {
  code = "AS-FRAUD-004";
  sip_status = 500;
  message = "screening data file cannot be read";
}
fraud_member fraud_data_schema_error = record {
  code = "AS-FRAUD-005";
  sip_status = 500;
  message = "screening data file violates the schema";
}
fraud_member fraud_no_verdict = record {
  code = "AS-FRAUD-006";
  sip_status = 500;
  message = "screening produced no verdict";
}

-- `for candidate in AsErrorCode`: the members in declaration order.
abbrev pub as_members : List AsErrorCode
as_members =
    rule_file_unreadable ∷ rule_parse_error ∷ rule_schema_error ∷ rule_duplicate_id ∷ route_no_match
    ∷ route_rejected ∷ route_no_next_hop ∷ route_translation_failed ∷ []

abbrev pub fraud_members : List FraudErrorCode
fraud_members =
    fraud_caller_blocked ∷ fraud_rate_exceeded ∷ fraud_reputation_low ∷ fraud_data_unreadable
    ∷ fraud_data_schema_error ∷ fraud_no_verdict ∷ []

-- The code of an `AsError`: a member of one of the two families, or of the platform's own, of which
-- the servers use only what the member carries.
pub data Code : Type 0 where
  routing : AsErrorCode → Code
  fraud : FraudErrorCode → Code
  skeleton : Member → Code

abbrev pub member : Code → Member
member (routing c) = as_member c
member (fraud c) = fraud_member c
member (skeleton m) = m

-- `AsError(code, detail, call_id=…, context={…})`
pub record AsError : Type 0 where
  pub code : Code
  pub detail : String
  pub call_id : Option String
  pub context : List (String × String)

-- What leaves a function of the program: an `AsError`, or an exception of another class, with its text.
pub data Exception : Type 0 where
  as_error : AsError → Exception
  other : String → Exception

-- What a library raises: an exception of the class that the `except` clause around the call names, or
-- another, each with its text.
pub data Raised : Type 0 where
  caught uncaught : String → Raised

-- `except … as exc: raise AsError(…) from exc`
abbrev pub raise_from : (String → AsError) → Raised → Exception
raise_from error (caught exc) = Exception.as_error (error exc)
raise_from error (uncaught exc) = Exception.other exc

abbrev pub error_status : AsError → ℕ
error_status e = (member e.code).sip_status

abbrev pub error_code : AsError → String
error_code e = (member e.code).code
