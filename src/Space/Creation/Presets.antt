-- ===== src/Space/Creation/Presets.antt =====
-- internal/space/service.go and internal/preset/preset.go: normalised inputs and the presets.
use my_kb.Prelude.{
  ◌≡◌, refl, true, false, ◌||◌, ◌&&◌, String, ◌==◌, some, inl, inr, arith, Bool-cases,
}
use mathlib.Core.Path.{subst}
use my_kb.Result.{ok}
use my_kb.Text.{==_sym}
use my_kb.Profile.{personal_notes, rag, owner_only, upstream}
use my_kb.Preset.{Definition, build, for_type, is_rag, Models, rag_config, notes_config}
use my_kb.Space.Inputs.{
  CreateInput, Normalized, normalize, by_mode, trimmed, notes_space, rag_space, bad_notes, bad_rag,
}
use my_kb.Space.Service.{preset_for}
use my_kb.Space.Creation.{agrees, same_policy}

abbrev models_of : CreateInput → Models
models_of i = record {
  embedding_model_id = i.embedding_model_id;
  summary_model_id = i.summary_model_id;
  rerank_model_id = i.rerank_model_id;
  vlm_model_id = i.vlm_model_id;
}

-- A preset is there, and it is the one that was normalised to.
abbrev HasPreset : Normalized → Type 0
HasPreset n = (d : Definition) × (preset_for n ≡ some d) × (agrees d n ≡ true)

-- A type keeps what `agrees` compares.
abbrev Typed : Definition → String → Type 0
Typed d kind =
    (t : Definition) × (for_type d kind ≡ some t)
    × (t.config.profile_id ≡ d.config.profile_id)
    × (t.access_policy ≡ d.access_policy)

for_type-Typed :
    (d : Definition) (kind : String)
    → (kind == "document" || (kind == "faq" && is_rag d.mode)) ≡ true
    → Typed d kind
unfolding for_type
for_type-Typed d kind h = elim (Bool-cases (kind == "" || kind == "document")) [
  | inl document ↦
      rw document
        (record d { config = record (d.config) { knowledge_base_type = "" } }, refl, refl, refl)
  | inr other ↦ elim (Bool-cases (kind == "faq")) [
    | inr neither ↦ absurd (ground arith)
    | inl faq ↦ elim (Bool-cases (is_rag d.mode)) [
      | inr no_rag ↦ absurd (ground arith)
      | inl with_rag ↦
          rw (other, faq, with_rag)
            (
              record d {
                config = record (d.config) {
                  knowledge_base_type = "faq";
                  models = record (d.config.models) { vlm_model_id = "" };
                };
              },
              refl,
              refl,
              refl,
            )
    ]
  ]
]

notes_space-HasPreset :
    (i : CreateInput)
    → (i.embedding_model_id == "") ≡ false
    → bad_notes i ≡ false
    → HasPreset (notes_space i)
unfolding preset_for agrees build same_policy notes_config notes_space bad_notes
notes_space-HasPreset i e good =
    let d : Definition = record {
      mode = personal_notes;
      access_policy = owner_only;
      config = notes_config (models_of i);
    } in
    let (t, found, profile, policy) = for_type-Typed d i.knowledge_base_type (ground arith) in
    (
      t,
      rw (preset_for, build, e) found,
      rw (profile, policy) (ground (arith, ==_sym (notes_space i).index_profile "notes_plain")),
    )

rag_space-HasPreset :
    (i : CreateInput)
    → (i.embedding_model_id == "") ≡ false
    → bad_rag i ≡ false
    → HasPreset (rag_space i)
unfolding preset_for agrees build is_rag same_policy rag_config rag_space bad_rag
rag_space-HasPreset i e good =
    let d : Definition = record {
      mode = rag;
      access_policy = upstream;
      config = rag_config (models_of (rag_space i).input);
    } in
    let (t, found, profile, policy) = for_type-Typed d i.knowledge_base_type (ground arith) in
    (
      t,
      rw (preset_for, build, e) found,
      rw (profile, policy) (ground (arith, ==_sym (rag_space i).index_profile "plain")),
    )

by_mode-HasPreset :
    (i : CreateInput) (n : Normalized)
    → (i.embedding_model_id == "") ≡ false
    → by_mode i ≡ ok n
    → HasPreset n
unfolding by_mode
by_mode-HasPreset i n e h = elim (Bool-cases (i.mode == "personal_notes")) [
  | inl notes ↦ elim (Bool-cases (bad_notes i)) [
    | inl bad ↦ absurd (cc (rw (notes, bad) at h))
    | inr good ↦
        let this : notes_space i ≡ n = cc (rw (notes, good) at h) in
        subst HasPreset this (notes_space-HasPreset i e good)
  ]
  | inr other ↦ elim (Bool-cases (i.mode == "rag")) [
    | inr neither ↦ absurd (cc (rw (other, neither) at h))
    | inl governed ↦ elim (Bool-cases (bad_rag i)) [
      | inl bad ↦ absurd (cc (rw (other, governed, bad) at h))
      | inr good ↦
          let this : rag_space i ≡ n = cc (rw (other, governed, good) at h) in
          subst HasPreset this (rag_space-HasPreset i e good)
    ]
  ]
]

-- Whenever normalizeCreateInput accepts an input, the approved presets have one for it, whose
-- profile and access policy are those that were normalised to.
pub normalize-agrees :
    (to_lower : String → String) (input : CreateInput) (n : Normalized)
    → normalize to_lower input ≡ ok n
    → (d : Definition) × (preset_for n ≡ some d) × (agrees d n ≡ true)
unfolding normalize
normalize-agrees to_lower input n h =
    by_mode-HasPreset (trimmed to_lower input) n (ground arith) (ground arith)
