-- ===== src/Services/Organizations/Founding.antt =====
-- What the creation of an organization leaves in the database.
use mob.Prelude.{String, ◌==◌, ◌≡◌, refl, ◌⊎◌, inl, inr, some, List, [], ◌∷◌, arith, Option-cases}
use mob.Models.{Organization}
use mob.Orm.{Orm, Db}
use mob.Transaction.{
  ok, run, flush, insert, pure, raise, refuse_if, commit, select, scalar_one_or_none, ◌>>=◌,
}
use mob.Services.Organizations.{
  create_organization, new_organization, default_domain, default_group,
}

list_cases :
    {A : Type 0} (xs : List A)
    → (xs ≡ [])
      ⊎ ((x : A) × (xs ≡ x ∷ []))
      ⊎ ((x : A) × (y : A) × (ys : List A) × (xs ≡ x ∷ y ∷ ys))
list_cases [] = inl refl
list_cases (x ∷ []) = inr (inl (x, refl))
list_cases (x ∷ y ∷ ys) = inr (inr (x, y, ys, refl))

-- The organization, its default domain and its default group are stored.
pub record Founded {o : Orm} (org_id domain_id group_id identifier name : String) (db : Db o)
    : Type 0 where
  pub organization :
      o.organizations.get db.organizations org_id ≡ some (new_organization org_id identifier name)
  pub domain :
      o.domains.get db.domains domain_id ≡ some (default_domain domain_id org_id identifier)
  pub group : o.groups.get db.groups group_id ≡ some (default_group group_id org_id)

-- If the creation of an organization succeeds, then the organization, its default domain and its
-- default group are saved.
pub create_organization-Founded :
    {o : Orm} (db : Db o) (org_id domain_id group_id identifier name : String) (org : Organization)
    → (run (create_organization org_id domain_id group_id identifier name) db).0 ≡ ok org
    → Founded org_id domain_id group_id identifier name
        (run (create_organization org_id domain_id group_id identifier name) db).1
unfolding run create_organization select scalar_one_or_none refuse_if insert flush commit pure raise
    ◌>>=◌
create_organization-Founded {o} db org_id domain_id group_id identifier name org e =
    elim (list_cases (o.organizations.select (λ r. r.identifier == identifier) db.organizations)) [
      | inr (inl (x, one)) ↦ absurd (ground arith)
      | inr (inr (x, y, ys, more)) ↦ absurd (ground arith)
      | inl free ↦
          elim (Option-cases
            (o.organizations.add (new_organization org_id identifier name) db.organizations)) [
              | inl no_org ↦ absurd (ground arith)
              | inr (orgs, org_added) ↦
                  elim (Option-cases
                    (o.domains.add (default_domain domain_id org_id identifier) db.domains)) [
                      | inl no_domain ↦ absurd (ground arith)
                      | inr (domains, domain_added) ↦
                          elim (Option-cases
                            (o.groups.add (default_group group_id org_id) db.groups)) [
                              | inl no_group ↦ absurd (ground arith)
                              | inr (groups, group_added) ↦ record {
                                organization = ground (
                                  arith,
                                  o.organizations.get-add_self db.organizations orgs _ org_added,
                                );
                                domain = ground (
                                  arith,
                                  o.domains.get-add_self db.domains domains _ domain_added,
                                );
                                group =
                                    ground
                                      (arith, o.groups.get-add_self db.groups groups _ group_added);
                              }
                            ]
                    ]
            ]
    ]
