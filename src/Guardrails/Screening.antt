-- ===== src/Guardrails/Screening.antt =====
-- Which prompts reach the model, and as what.
use enterprise_multi_tenant.Base.{
  ◌≡◌, ◌≢◌, ◌⊎◌, refl, ap, sym, ◌∙◌, Bool, true, false, not, ◌&&◌, [], Option, none, some, arith,
  inl, inr, Bool-cases, if◌then◌else◌,
}
use enterprise_multi_tenant.Text.{Text, text}
use enterprise_multi_tenant.Routes.ChatStream.{Screened, clean, rejected, broken}
use enterprise_multi_tenant.Guardrails.{
  Injection, ignore_instructions, system_prompt_override, you_are_now, bypass_filters, jailbreak,
  disregard_guidelines, repeat_words, im_start, im_end, inst, end_inst, Checked, Engines,
  GuardSettings, looks_security_sensitive, inspect_prompt, redact_pii, is_blocked, content_or,
  input_checked, sanitize_prompt_async,
}

-- The rails have to look at the prompt.
abbrev pub is_railed : GuardSettings → Text → Bool
is_railed g sanitized =
    g.uses_nemo && not (g.suspicious_only && not (looks_security_sensitive sanitized))

-- Every pattern is among those that are searched for.
not_found :
    (e : Engines) (prompt : Text)
    → inspect_prompt e prompt ≡ false
    → (pattern : Injection) → e.search pattern prompt ≡ false
unfolding inspect_prompt
not_found e prompt h ignore_instructions = ground arith
not_found e prompt h system_prompt_override = ground arith
not_found e prompt h you_are_now = ground arith
not_found e prompt h bypass_filters = ground arith
not_found e prompt h jailbreak = ground arith
not_found e prompt h disregard_guidelines = ground arith
not_found e prompt h repeat_words = ground arith
not_found e prompt h im_start = ground arith
not_found e prompt h im_end = ground arith
not_found e prompt h inst = ground arith
not_found e prompt h end_inst = ground arith

clean-injective : (s t : Text) → clean s ≡ clean t → s ≡ t
clean-injective s t h = ap text_in h
  where
    text_in : Screened → Text
    text_in (clean x) = x
    text_in (rejected x) = x
    text_in broken = []

input_clean :
    (sanitized t : Text) (o : Option Checked)
    → input_checked sanitized o ≡ clean t
    → (r : Checked) × (o ≡ some r) × (is_blocked r ≡ false) × (t ≡ content_or r.content sanitized)
input_clean sanitized t none h = absurd (cc h)
input_clean sanitized t (some r) h = elim (Bool-cases (is_blocked r)) [
  | inl blocked ↦ absurd (refused (sym (rw blocked refl) ∙ h))
  | inr passed ↦
      (r, refl, passed, clean-injective t (content_or r.content sanitized) (sym h ∙ rw passed refl))
]
  where
    refused :
        rejected (text "Security Policy Violation: NeMo input rail blocked the prompt.") ≢ clean t
    refused k = cc k

-- A prompt that is let through matches no injection pattern, and what is let through is its redaction,
-- or, where the rails have to look at that, what a rail that did not block it has made of it.
pub screened_sound :
    (g : GuardSettings) (e : Engines) (prompt t : Text)
    → sanitize_prompt_async g e prompt ≡ clean t
    → ((pattern : Injection) → e.search pattern prompt ≡ false)
      × ((is_railed g (redact_pii g e prompt) ≡ false) × (t ≡ redact_pii g e prompt)
          ⊎ (r : Checked) × (e.input_rail (redact_pii g e prompt) ≡ some r)
            × (is_blocked r ≡ false)
            × (t ≡ content_or r.content (redact_pii g e prompt)))
unfolding sanitize_prompt_async
screened_sound g e prompt t h =
    go (redact_pii g e prompt) (inspect_prompt e prompt) g.uses_nemo
      (g.suspicious_only && not (looks_security_sensitive (redact_pii g e prompt))) refl refl refl
      refl h
  where
    go :
        (s : Text) (found nemo skipped : Bool)
        → redact_pii g e prompt ≡ s
        → inspect_prompt e prompt ≡ found
        → g.uses_nemo ≡ nemo
        → (g.suspicious_only && not (looks_security_sensitive s)) ≡ skipped
        → (if found
            then rejected (text "Security Policy Violation: Malicious prompt pattern detected.")
            else if not nemo
            then clean s
            else if skipped
            then clean s
            else input_checked s (e.input_rail s))
          ≡ clean t
        → ((pattern : Injection) → e.search pattern prompt ≡ false)
          × ((is_railed g s ≡ false) × (t ≡ s)
              ⊎ (r : Checked) × (e.input_rail s ≡ some r)
                × (is_blocked r ≡ false)
                × (t ≡ content_or r.content s))
    go s true nemo skipped is_s is_found is_nemo is_skipped k = absurd (cc k)
    go s false false skipped is_s is_found is_nemo is_skipped k =
        (not_found e prompt is_found, inl (rw is_nemo refl, sym (clean-injective s t k)))
    go s false true true is_s is_found is_nemo is_skipped k = (
      not_found e prompt is_found,
      inl (rw (is_nemo, is_skipped) refl, sym (clean-injective s t k)),
    )
    go s false true false is_s is_found is_nemo is_skipped k =
        (not_found e prompt is_found, inr (input_clean s t (e.input_rail s) k))
