-- ===== src/Tests/Encodings.antt =====
-- Encodings of the documents as bytes.
use k8sgrowthbook_controller.Prelude.{refl}
use k8sgrowthbook_controller.Documents.User.{User}
use k8sgrowthbook_controller.Documents.Organization.{Organization, OrganizationMember}
use k8sgrowthbook_controller.Documents.SdkConnection.{SdkConnection, SdkConnectionProxy}
use k8sgrowthbook_controller.Documents.Feature.{
  Feature, FeatureRule, EnvironmentSetting, ScheduleRule, SavedGroupTargeting, FeaturePrerequisite,
  ExperimentValue, NamespaceValue, ExperimentRefVariation,
}
use k8sgrowthbook_controller.Tests.Codecs.{
  Codec, via, both, number, list, option, flag, int, text, texts,
}

abbrev pub user_codec : Codec User
user_codec =
    via (λ u. (u.id, (u.email, (u.name, (u.password_hash, u.revision)))))
      (λ (i, (e, (n, (p, r)))). record {
        id = i;
        email = e;
        name = n;
        password_hash = p;
        revision = r;
      })
      (λ u. refl) (both text (both text (both text (both text int))))

abbrev member : Codec OrganizationMember
member =
    via (λ x. (x.id, x.role)) (λ (a, b). record { id = a; role = b }) (λ x. refl) (both text text)

abbrev pub organization_codec : Codec Organization
organization_codec =
    via (λ x. (x.id, (x.owner_email, (x.name, (x.date_created, (x.members, x.revision))))))
      (λ (a, (b, (c, (d, (e, f))))). record {
        id = a;
        owner_email = b;
        name = c;
        date_created = d;
        members = e;
        revision = f;
      })
      (λ x. refl)
      (both text (both text (both text (both number (both (option (list member)) int)))))

abbrev proxy : Codec SdkConnectionProxy
proxy = via (λ x. x.signing_key) (λ k. record { signing_key = k }) (λ x. refl) text

abbrev pub connection_codec : Codec SdkConnection
connection_codec =
    via
      (λ x. (
        x.id,
        (
          x.key,
          (
            x.languages,
            (
              x.name,
              (
                x.environment,
                (
                  x.encrypt_payload,
                  (
                    x.encryption_key,
                    (
                      x.organization,
                      (
                        x.project,
                        (
                          x.include_visual_experiments,
                          (
                            x.include_draft_experiments,
                            (
                              x.include_experiment_names,
                              (x.date_created, (x.date_updated, (x.proxy, x.revision))),
                            ),
                          ),
                        ),
                      ),
                    ),
                  ),
                ),
              ),
            ),
          ),
        ),
      ))
      (λ (a, (b, (c, (d, (e, (f, (g, (h, (i, (j, (k, (l, (m, (n, (o, p))))))))))))))). record {
        id = a;
        key = b;
        languages = c;
        name = d;
        environment = e;
        encrypt_payload = f;
        encryption_key = g;
        organization = h;
        project = i;
        include_visual_experiments = j;
        include_draft_experiments = k;
        include_experiment_names = l;
        date_created = m;
        date_updated = n;
        proxy = o;
        revision = p;
      })
      (λ x. refl)
      (both text (
        both text (
          both texts (
            both text (
              both text (
                both flag (
                  both text (
                    both text (
                      both text (
                        both flag (
                          both flag
                            (both flag (both number (both number (both proxy int)))))))))))))))

abbrev variation : Codec ExperimentRefVariation
variation =
    via (λ x. (x.variation_id, x.value)) (λ (a, b). record { variation_id = a; value = b })
      (λ x. refl) (both text text)

abbrev prerequisite : Codec FeaturePrerequisite
prerequisite =
    via (λ x. (x.id, x.condition)) (λ (a, b). record { id = a; condition = b }) (λ x. refl)
      (both text text)

abbrev schedule_rule : Codec ScheduleRule
schedule_rule =
    via (λ x. (x.timestamp, x.enabled)) (λ (a, b). record { timestamp = a; enabled = b })
      (λ x. refl) (both text flag)

abbrev saved_group : Codec SavedGroupTargeting
saved_group =
    via (λ x. (x.match, x.ids)) (λ (a, b). record { match = a; ids = b }) (λ x. refl)
      (both text texts)

abbrev experiment_value : Codec ExperimentValue
experiment_value =
    via (λ x. (x.id, (x.value, (x.weight, x.name))))
      (λ (a, (b, (c, d))). record { id = a; value = b; weight = c; name = d }) (λ x. refl)
      (both text (both text (both number (option text))))

abbrev namespace_value : Codec NamespaceValue
namespace_value =
    via (λ x. (x.enabled, (x.name, x.range)))
      (λ (a, (b, c)). record { enabled = a; name = b; range = c }) (λ x. refl)
      (both flag (both text (option (list number))))

abbrev rule : Codec FeatureRule
rule =
    via
      (λ x. (
        x.id,
        (
          x.type,
          (
            x.description,
            (
              x.condition,
              (
                x.enabled,
                (
                  x.schedule_rules,
                  (
                    x.saved_groups,
                    (
                      x.prerequisites,
                      (
                        x.value,
                        (
                          x.coverage,
                          (
                            x.hash_attribute,
                            (
                              x.tracking_key,
                              (
                                x.fallback_attribute,
                                (
                                  x.disable_sticky_bucketing,
                                  (
                                    x.bucket_version,
                                    (
                                      x.min_bucket_version,
                                      (x.namespace, (x.values, (x.experiment_id, x.variations))),
                                    ),
                                  ),
                                ),
                              ),
                            ),
                          ),
                        ),
                      ),
                    ),
                  ),
                ),
              ),
            ),
          ),
        ),
      ))
      (λ (
        a,
        (b, (c, (d, (e, (f, (g, (h, (i, (j, (k, (l, (m, (n, (o, (p, (q, (r, (s, t)))))))))))))))))),
      ).
        record {
          id = a;
          type = b;
          description = c;
          condition = d;
          enabled = e;
          schedule_rules = f;
          saved_groups = g;
          prerequisites = h;
          value = i;
          coverage = j;
          hash_attribute = k;
          tracking_key = l;
          fallback_attribute = m;
          disable_sticky_bucketing = n;
          bucket_version = o;
          min_bucket_version = p;
          namespace = q;
          values = r;
          experiment_id = s;
          variations = t;
        })
      (λ x. refl)
      (both text (
        both text (
          both text (
            both text (
              both flag (
                both (option (list schedule_rule)) (
                  both (option (list saved_group)) (
                    both (option (list prerequisite)) (
                      both text (
                        both number (
                          both text (
                            both text (
                              both (option text) (
                                both (option flag) (
                                  both (option number) (
                                    both (option number) (
                                      both (option namespace_value) (
                                        both (option (list experiment_value))
                                          (both text (option (list variation)))))))))))))))))))))

abbrev setting : Codec EnvironmentSetting
setting =
    via (λ x. (x.enabled, x.rules)) (λ (a, b). record { enabled = a; rules = b }) (λ x. refl)
      (both flag (option (list rule)))

abbrev pub feature_codec : Codec Feature
feature_codec =
    via
      (λ x. (
        x.id,
        (
          x.owner,
          (
            x.description,
            (
              x.tags,
              (
                x.default_value,
                (
                  x.value_type,
                  (
                    x.organization,
                    (
                      x.environments,
                      (
                        x.environment_settings,
                        (x.date_created, (x.date_updated, (x.archived, x.revision))),
                      ),
                    ),
                  ),
                ),
              ),
            ),
          ),
        ),
      ))
      (λ (a, (b, (c, (d, (e, (f, (g, (h, (i, (j, (k, (l, m)))))))))))). record {
        id = a;
        owner = b;
        description = c;
        tags = d;
        default_value = e;
        value_type = f;
        organization = g;
        environments = h;
        environment_settings = i;
        date_created = j;
        date_updated = k;
        archived = l;
        revision = m;
      })
      (λ x. refl)
      (both text (
        both text (
          both text (
            both texts (
              both text (
                both text (
                  both text (
                    both texts (
                      both (option (list (both text setting)))
                        (both number (both number (both flag int))))))))))))
