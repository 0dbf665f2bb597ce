-- ===== src/Aggregator/Slug/Tests.antt =====
-- internal/aggregator/incident_store.go: names at concrete inputs.
use kube_diagnose.Common.{Text, true, codes, ◌≡◌, refl, arith, All}
use kube_diagnose.Aggregator.Slug.{
  is_alnum, to_lower, dash_runs, trim_left, trim_right, before_dashes, slugify, incident_crd_name,
}
use kube_diagnose.Aggregator.Slug.Labels.{DnsLabel, incident_crd_name-DnsLabel}

abbrev same : Text → Text
same s = s

abbrev refused : Text
refused = codes "Dial TCP <IP>: refused!"

slugify-refused : slugify same refused ≡ codes "dial-tcp-ip-refused"
unfolding slugify to_lower dash_runs trim_left trim_right before_dashes
slugify-refused = refl

hex : All (λ c. is_alnum c ≡ true) (codes "0a1b2c3d4e")
hex = (refl, (refl, (refl, (refl, (refl, (refl, (refl, (refl, (refl, (refl, tt))))))))))

incident_crd_name-DnsLabel_example :
    DnsLabel 63 (incident_crd_name same refused (codes "0a1b2c3d4e"))
incident_crd_name-DnsLabel_example =
    incident_crd_name-DnsLabel same refused (codes "0a1b2c3d4e") (λ e. ground arith) hex
