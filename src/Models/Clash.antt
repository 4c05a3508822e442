-- ===== src/Models/Clash.antt =====
-- The unique constraints of src/mob/models (`unique=True`, `UniqueConstraint`), class by class:
-- `clash` of two rows holds if they cannot both be in the table. A primary key is not among them.
use mob.Prelude.{String, ◌==◌, Bool, false, ◌&&◌, ◌||◌, Option, some}
use mob.Models.{Organization, Domain, User, Group, GroupMember, Session, Skill}

-- Two equal texts under a unique constraint; SQL lets any number of rows hold NULL.
abbrev pub same_text : Option String → Option String → Bool
same_text (some s) (some t) = s == t
same_text _ _ = false

abbrev pub organization : Organization → Organization → Bool
organization r s = r.identifier == s.identifier

abbrev pub domain : Domain → Domain → Bool
domain r s = r.identifier == s.identifier

abbrev pub user : User → User → Bool
user r s = r.email == s.email || same_text r.keycloak_id s.keycloak_id

abbrev pub group : Group → Group → Bool
group r s = r.name == s.name && r.organization_id == s.organization_id

abbrev pub group_member : GroupMember → GroupMember → Bool
group_member r s = r.group_id == s.group_id && r.user_id == s.user_id

abbrev pub session : Session → Session → Bool
session r s = r.name == s.name

abbrev pub skill : Skill → Skill → Bool
skill r s = r.name == s.name

-- Agents, tasks and links of agents to skills have no unique column but the primary key.
abbrev pub unconstrained {ℓ} : {R : Type ℓ} → R → R → Bool
unconstrained r s = false
