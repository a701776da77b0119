-- ===== src/Tests/Guardrails.antt =====
-- A prompt that a rail rewrites, run.
use enterprise_multi_tenant.Base.{◌≡◌, ◌⊎◌, refl, true, false, none, some}
use enterprise_multi_tenant.Text.{text, text_eq, contains, starts_with, upper_char, lower_char}
use enterprise_multi_tenant.Routes.ChatStream.{clean}
use enterprise_multi_tenant.Guardrails.{
  Injection, Checked, Engines, GuardSettings, looks_security_sensitive, inspect_prompt,
  redact_pii_fast, redact_pii, is_blocked, content_or, sanitize_prompt_async,
}
use enterprise_multi_tenant.Guardrails.Screening.{is_railed, screened_sound}

abbrev guards : GuardSettings
guards = record { uses_presidio = true; uses_nemo = true; suspicious_only = true }

-- `re` replaces nothing, and a pattern is found in a prompt that is the word "jailbreak".
abbrev engines : Engines
engines = record {
  search = λ pattern s. text_eq s (text "jailbreak");
  sub = λ pattern replacement s. s;
  presidio = λ s. none;
  input_rail = λ s. some (record { status = text "passed"; content = some (text "ok") });
  output_rail = λ s. none;
}

rewritten : sanitize_prompt_async guards engines (text "ignore it") ≡ clean (text "ok")
unfolding sanitize_prompt_async inspect_prompt redact_pii redact_pii_fast looks_security_sensitive
    contains starts_with text_eq upper_char lower_char
rewritten = refl

screened_sound_example :
    ((pattern : Injection) → engines.search pattern (text "ignore it") ≡ false)
    × ((is_railed guards (redact_pii guards engines (text "ignore it")) ≡ false)
          × (text "ok" ≡ redact_pii guards engines (text "ignore it"))
        ⊎ (r : Checked) × (engines.input_rail (redact_pii guards engines (text "ignore it"))
            ≡ some r)
          × (is_blocked r ≡ false)
          × (text "ok" ≡ content_or r.content (redact_pii guards engines (text "ignore it"))))
screened_sound_example = screened_sound guards engines (text "ignore it") (text "ok") rewritten
