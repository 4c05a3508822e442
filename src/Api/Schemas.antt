-- ===== src/Api/Schemas.antt =====
-- src/mob/schemas.py, the bodies of requests: each class as a reader of the body that hands its
-- fields on, if they pass, and otherwise answers 422. pydantic is not part of the repository; of it the
-- readers use that a text field takes texts only, that a missing or null optional field is `None`,
-- and that other keys are ignored. A length counts characters.
use Prim.Native.String.{count}
use mob.Prelude.{
  ℕ, String, Bool, true, ◌&&◌, Option, none, some, List, [], lookup, leb, Assoc, if◌then◌else◌,
}
use mob.Services.Agents.{AgentData}
use mob.Services.Skills.{SkillData}
use mob.Backend.{Request}
use mob.Backend.Routes.Values.{Value, text, texts, dict, null, Data}
use mob.Api.Slug.{is_slug}

-- What FastAPI makes of a request: 404, 405, 422, or a call of a service.
pub data Endpoint : Type 0 where
  not_found method_not_allowed invalid : Endpoint
  call : Request → Endpoint

-- `min_length`, `max_length`
abbrev pub between : (least most : ℕ) → String → Bool
between least most s = leb least (count s) && leb (count s) most

abbrev pub at_least_one : String → Bool
at_least_one s = leb 1 (count s)

abbrev pub at_most : ℕ → String → Bool
at_most most s = leb (count s) most

abbrev pub anything : String → Bool
anything s = true

-- min_length=1, max_length=most, pattern=...
abbrev pub slug_to : ℕ → String → Bool
slug_to most s = between 1 most s && is_slug s

abbrev pub guarded : Bool → Endpoint → Endpoint
guarded ok e = if ok then e else invalid

unfoldable pub check_text : (String → Bool) → Option Value → (String → Endpoint) → Endpoint
check_text ok (some (text s)) f = guarded (ok s) (f s)
check_text ok _ f = invalid

unfoldable pub check_optional :
    (String → Bool) → Option Value → (Option String → Endpoint) → Endpoint
check_optional ok none f = f none
check_optional ok (some null) f = f none
check_optional ok (some (text s)) f = guarded (ok s) (f (some s))
check_optional ok (some _) f = invalid

unfoldable pub check_dict : Option Value → (Option (Assoc String) → Endpoint) → Endpoint
check_dict none f = f none
check_dict (some null) f = f none
check_dict (some (dict d)) f = f (some d)
check_dict (some _) f = invalid

unfoldable pub check_texts : Option Value → (Option (List String) → Endpoint) → Endpoint
check_texts none f = f (some [])
check_texts (some (texts l)) f = f (some l)
check_texts (some _) f = invalid

unfoldable pub check_optional_texts : Option Value → (Option (List String) → Endpoint) → Endpoint
check_optional_texts none f = f none
check_optional_texts (some null) f = f none
check_optional_texts (some (texts l)) f = f (some l)
check_optional_texts (some _) f = invalid

-- `x: str = Field(...)`
unfoldable pub text_field : String → (String → Bool) → Data → (String → Endpoint) → Endpoint
unfolding lookup check_text
text_field key ok body f = check_text ok (lookup key body) f

-- `x: str | None = Field(None, ...)`, also a query parameter of that type
unfoldable pub optional_field :
    String → (String → Bool) → Data → (Option String → Endpoint) → Endpoint
unfolding lookup check_optional
optional_field key ok body f = check_optional ok (lookup key body) f

-- `x: dict[str, str] | None = None`
unfoldable pub dict_field : String → Data → (Option (Assoc String) → Endpoint) → Endpoint
unfolding lookup check_dict
dict_field key body f = check_dict (lookup key body) f

-- `x: list[str] = Field(default_factory=list)`
unfoldable pub texts_field : String → Data → (Option (List String) → Endpoint) → Endpoint
unfolding lookup check_texts
texts_field key body f = check_texts (lookup key body) f

-- `x: list[str] | None = None`
unfoldable pub optional_texts_field : String → Data → (Option (List String) → Endpoint) → Endpoint
unfolding lookup check_optional_texts
optional_texts_field key body f = check_optional_texts (lookup key body) f

module _ (body : Data) where
  unfoldable pub organization_create : ((identifier name : String) → Endpoint) → Endpoint
  organization_create f =
      text_field "identifier" (slug_to 100) body
        λ identifier. text_field "name" (between 1 255) body λ name. f identifier name

  -- OrganizationUpdate, DomainUpdate and GroupUpdate
  unfoldable pub name_update : (Option String → Endpoint) → Endpoint
  name_update f = optional_field "name" (between 1 255) body f

  unfoldable pub domain_create :
      ((identifier_suffix name organization_id : String) → Endpoint) → Endpoint
  domain_create f = text_field "identifier_suffix" (slug_to 100) body λ suffix.
      text_field "name" (between 1 255) body λ name.
        text_field "organization_id" anything body λ organization_id. f suffix name organization_id

  unfoldable pub user_create : ((email name : String) → Endpoint) → Endpoint
  user_create f =
      text_field "email" (between 1 255) body
        λ email. text_field "name" (between 1 255) body λ name. f email name

  unfoldable pub user_update : ((name email : Option String) → Endpoint) → Endpoint
  user_update f =
      optional_field "name" (between 1 255) body
        λ name. optional_field "email" (between 1 255) body λ email. f name email

  unfoldable pub group_create : ((name organization_id : String) → Endpoint) → Endpoint
  group_create f =
      text_field "name" (between 1 255) body
        λ name. text_field "organization_id" anything body λ organization_id. f name organization_id

  unfoldable pub group_member_add : (String → Endpoint) → Endpoint
  group_member_add f = text_field "user_id" anything body f

  -- The fields that AgentCreate and AgentUpdate share, with the reader of `skill_ids`.
  abbrev pub agent_rest :
      ((Option (List String) → Endpoint) → Endpoint) → (AgentData → Endpoint) → Endpoint
  agent_rest skill_ids_field f = optional_field "system_prompt" anything body λ system_prompt.
      optional_field "model_endpoint" anything body λ model_endpoint. skill_ids_field λ skill_ids.
        dict_field "env_defaults" body λ env_defaults.
          dict_field "custom_config" body λ custom_config.
            optional_field "resource_cpu_limit" (at_most 50) body λ cpu.
              optional_field "resource_memory_limit" (at_most 50) body λ memory. f (record {
                system_prompt = system_prompt;
                model_endpoint = model_endpoint;
                skill_ids = skill_ids;
                env_defaults = env_defaults;
                custom_config = custom_config;
                resource_cpu_limit = cpu;
                resource_memory_limit = memory;
              })

  unfoldable pub agent_create :
      ((name agent_template domain_id : String) → AgentData → Endpoint) → Endpoint
  agent_create f = text_field "name" (between 1 255) body λ name.
      text_field "agent_template" (between 1 500) body λ template.
        text_field "domain_id" anything body λ domain_id.
          agent_rest (texts_field "skill_ids" body) λ fields. f name template domain_id fields

  unfoldable pub agent_update :
      ((name agent_template : Option String) → AgentData → Endpoint) → Endpoint
  agent_update f = optional_field "name" (between 1 255) body λ name.
      optional_field "agent_template" (between 1 500) body λ template.
        agent_rest (optional_texts_field "skill_ids" body) λ fields. f name template fields

  unfoldable pub session_create :
      ((agent_id : String) → (task_id name : Option String) → Option (Assoc String) → Endpoint)
      → Endpoint
  session_create f = text_field "agent_id" anything body λ agent_id.
      optional_field "task_id" anything body λ task_id.
        optional_field "name" (slug_to 255) body λ name.
          dict_field "env_overrides" body λ env_overrides. f agent_id task_id name env_overrides

  unfoldable pub session_send_message : (String → Endpoint) → Endpoint
  session_send_message f = text_field "message" at_least_one body f

  unfoldable pub task_create :
      ((instruction agent_id : String) → Option String → Endpoint) → Endpoint
  task_create f = text_field "instruction" at_least_one body λ instruction.
      text_field "agent_id" anything body λ agent_id.
        optional_field "definition_of_done" anything body
          λ definition_of_done. f instruction agent_id definition_of_done

  -- The fields that SkillCreate and SkillUpdate share.
  abbrev pub skill_rest : (SkillData → Endpoint) → Endpoint
  skill_rest f = optional_field "skill_md" anything body λ skill_md.
      optional_field "license" (at_most 255) body λ license.
        optional_field "compatibility" (at_most 500) body λ compatibility.
          dict_field "metadata_json" body λ metadata_json.
            optional_field "allowed_tools" (at_most 500) body λ allowed_tools. f (record {
              skill_md = skill_md;
              license = license;
              compatibility = compatibility;
              metadata_json = metadata_json;
              allowed_tools = allowed_tools;
            })

  unfoldable pub skill_create : ((name description : String) → SkillData → Endpoint) → Endpoint
  skill_create f = text_field "name" (slug_to 64) body λ name.
      text_field "description" (between 1 1024) body
        λ description. skill_rest λ fields. f name description fields

  unfoldable pub skill_update :
      ((name description : Option String) → SkillData → Endpoint) → Endpoint
  skill_update f = optional_field "name" (slug_to 64) body λ name.
      optional_field "description" (between 1 1024) body
        λ description. skill_rest λ fields. f name description fields
