-- ===== src/Services/Skills.antt =====
-- src/mob/services/skills.py
use mob.Prelude.{String, ◌<>◌, ◌==◌, true, ◌||◌, Option, List, assigned}
use mob.Models.{Skill}
use mob.Orm.{Orm}
use mob.Transaction.{
  Error, service_error, Service, skills, pure, require, refuse_if, commit, find, select, insert,
  assign, remove, scalar_one_or_none, is_given, when, ◌>>=◌, ◌>>◌,
}
use mob.Services.Json.{Json, Dict, dumps_given, assigned_json, assigned_text}

abbrev pub not_found : Error
not_found = service_error "Skill not found" 404

abbrev pub name_taken : String → Error
name_taken name = service_error ("Skill with name '" <> (name <> "' already exists")) 400

-- The arguments of `create_skill` but the name and the description.
pub record SkillData : Type 0 where
  pub skill_md : Option String
  pub license : Option String
  pub compatibility : Option String
  pub metadata_json : Option Dict
  pub allowed_tools : Option String

abbrev pub new_skill : Json → (id name description : String) → SkillData → Skill
new_skill j id name description fields = record {
  id = id;
  name = name;
  description = description;
  skill_md = fields.skill_md;
  license = fields.license;
  compatibility = fields.compatibility;
  metadata_json = dumps_given j fields.metadata_json;
  allowed_tools = fields.allowed_tools;
}

-- The row after the assignments of `update_skill`.
abbrev pub updated_skill : Json → (name description : Option String) → SkillData → Skill → Skill
updated_skill j name description fields skill = record {
  id = skill.id;
  name = assigned name skill.name;
  description = assigned description skill.description;
  skill_md = assigned_text fields.skill_md skill.skill_md;
  license = assigned_text fields.license skill.license;
  compatibility = assigned_text fields.compatibility skill.compatibility;
  metadata_json = assigned_json j fields.metadata_json skill.metadata_json;
  allowed_tools = assigned_text fields.allowed_tools skill.allowed_tools;
}

module _ {o : Orm} where
  unfoldable pub list_skills : Service o (List Skill)
  list_skills = select skills (λ r. true)

  unfoldable pub create_skill : Json → (id name description : String) → SkillData → Service o Skill
  create_skill j id name description fields = do
    found ← select skills (λ r. r.name == name)
    existing ← scalar_one_or_none found
    refuse_if (is_given existing) (name_taken name)
    insert skills (new_skill j id name description fields)
    commit
    pure (new_skill j id name description fields)

  unfoldable pub get_skill : String → Service o Skill
  get_skill skill_id = do found ← find skills skill_id; require not_found found

  unfoldable pub update_skill :
      Json → String → (name description : Option String) → SkillData → Service o Skill
  update_skill j skill_id name description fields = do
    found ← find skills skill_id
    skill ← require not_found found
    let skill' = updated_skill j name description fields skill
    when
        (is_given name
          || is_given description
          || is_given fields.skill_md
          || is_given fields.license
          || is_given fields.compatibility
          || is_given fields.metadata_json
          || is_given fields.allowed_tools)
        (assign skills skill')
    commit
    pure skill'

  unfoldable pub delete_skill : String → Service o (Unit {0})
  delete_skill skill_id = do
    found ← find skills skill_id
    skill ← require not_found found
    remove skills skill.id
    commit
