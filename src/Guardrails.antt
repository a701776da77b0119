-- ===== src/Guardrails.antt =====
-- app/core/security.py: what is done to a prompt before the model sees it, and to an answer. The
-- regular expressions are named, and how `re` searches and replaces with them is an argument; so are
-- Presidio and NeMo Guardrails.
pub mod Screening
use enterprise_multi_tenant.Base.{
  Bool, true, false, not, ◌&&◌, List, [], ◌∷◌, Option, none, some, any, if◌then◌else◌,
}
use enterprise_multi_tenant.Text.{Text, text, lower, upper, contains}
use enterprise_multi_tenant.Routes.ChatStream.{Screened, clean, rejected, broken}

-- `INJECTION_PATTERNS`
pub data Injection : Type 0 where
  ignore_instructions system_prompt_override you_are_now bypass_filters jailbreak
        disregard_guidelines repeat_words im_start im_end inst end_inst :
      Injection

abbrev pub injection_patterns : List Injection
injection_patterns =
    ignore_instructions ∷ system_prompt_override ∷ you_are_now ∷ bypass_filters ∷ jailbreak
    ∷ disregard_guidelines ∷ repeat_words ∷ im_start ∷ im_end ∷ inst ∷ end_inst ∷ []

-- The expressions of what is redacted.
pub data Sensitive : Type 0 where
  email phone ssn credit_card jwt api_key : Sensitive

-- The result of a rail.
pub record Checked : Type 0 where
  pub status : Text
  pub content : Option Text

-- The libraries: `re.search` without regard to case, `re.sub`, and the two engines, none where they
-- raise, which for a rail is taken to be no `ValueError`.
pub record Engines : Type 0 where
  pub search : Injection → Text → Bool
  pub sub : Sensitive → Text → Text → Text
  pub presidio : Text → Option Text
  pub input_rail : Text → Option Checked
  pub output_rail : Text → Option Checked

-- The settings PII_PROVIDER, PROMPT_GUARDRAILS_PROVIDER and NEMO_CHECK_MODE.
pub record GuardSettings : Type 0 where
  pub uses_presidio : Bool
  pub uses_nemo : Bool
  pub suspicious_only : Bool

abbrev pub indicators : List Text
indicators =
    text "ignore"
    ∷ text "disregard"
    ∷ text "system prompt"
    ∷ text "jailbreak"
    ∷ text "bypass"
    ∷ text "developer mode"
    ∷ text "reveal instructions"
    ∷ text "previous instructions"
    ∷ []

-- `casefold` is taken of the ASCII letters only.
unfoldable pub looks_security_sensitive : Text → Bool
looks_security_sensitive prompt = any (λ indicator. contains indicator (lower prompt)) indicators

-- `inspect_prompt`, by whether it raises.
unfoldable pub inspect_prompt : Engines → Text → Bool
inspect_prompt e prompt = any (λ pattern. e.search pattern prompt) injection_patterns

unfoldable pub redact_pii_fast : Engines → Text → Text
redact_pii_fast e s =
    let s1 = e.sub email (text "[REDACTED_EMAIL]") s in
    let s2 = e.sub phone (text "[REDACTED_PHONE]") s1 in
    let s3 = e.sub ssn (text "[REDACTED_SSN]") s2 in
    let s4 = e.sub credit_card (text "[REDACTED_CARD]") s3 in
    let s5 = e.sub jwt (text "[REDACTED_JWT]") s4 in e.sub api_key (text "[REDACTED_SECRET]") s5

abbrev pub or_fast : Engines → Text → Option Text → Text
or_fast e s none = redact_pii_fast e s
or_fast e s (some redacted) = redacted

unfoldable pub redact_pii : GuardSettings → Engines → Text → Text
redact_pii g e s = if g.uses_presidio then or_fast e s (e.presidio s) else redact_pii_fast e s

-- `"BLOCK" in status_value`
abbrev pub is_blocked : Checked → Bool
is_blocked r = contains (text "BLOCK") (upper r.status)

-- `str(content) if content else sanitized`
abbrev pub content_or : Option Text → Text → Text
content_or none sanitized = sanitized
content_or (some []) sanitized = sanitized
content_or (some (c ∷ content)) sanitized = c ∷ content

abbrev pub input_checked : Text → Option Checked → Screened
input_checked sanitized none = broken
input_checked sanitized (some r) =
    if is_blocked r
    then rejected (text "Security Policy Violation: NeMo input rail blocked the prompt.")
    else clean (content_or r.content sanitized)

-- `sanitize_prompt_async`, with the check and the redaction of `sanitize_prompt`.
unfoldable pub sanitize_prompt_async : GuardSettings → Engines → Text → Screened
sanitize_prompt_async g e prompt =
    let sanitized = redact_pii g e prompt in
    if inspect_prompt e prompt
    then rejected (text "Security Policy Violation: Malicious prompt pattern detected.")
    else if not g.uses_nemo
    then clean sanitized
    else if g.suspicious_only && not (looks_security_sensitive sanitized)
    then clean sanitized
    else input_checked sanitized (e.input_rail sanitized)

abbrev pub output_checked : Text → Option Checked → Text
output_checked sanitized none = sanitized
output_checked sanitized (some r) =
    if is_blocked r
    then text "I cannot provide this response because it violates enterprise compliance policies."
    else content_or r.content sanitized

unfoldable pub sanitize_output_async : GuardSettings → Engines → Text → Text
sanitize_output_async g e output_text =
    let sanitized = redact_pii g e output_text in
    if not g.uses_nemo then sanitized else output_checked sanitized (e.output_rail sanitized)
