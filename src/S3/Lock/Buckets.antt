-- ===== src/S3/Lock/Buckets.antt =====
-- src/s3/lock.rs: the handlers of a bucket's object-lock configuration, and the lock that it gives to
-- a new object.
use s3lite.Common.{
  ℕ, ◌+◌, ◌*◌, ◌^◌, not, ◌&&◌, ◌||◌, Bool, false, Option, none, some, List, Result, ok, err, ◌>>=◌,
  ok_or, if◌then◌else◌,
}
use s3lite.Common.Order.{Bytes}
use s3lite.Common.Text.{bytes}
use s3lite.Storage.Manifest.{Time, ObjectLock, DefaultRetention, ObjectLockConfig}
use s3lite.Storage.Engine.{Engine, Db}
use s3lite.Storage.Actor.Buckets.{handle_get_bucket, handle_update_bucket_object_lock}
use s3lite.Storage.Actor.Ops.{Message, run}
use s3lite.S3.Error.{S3Error, new_error, with_resource, invalid_request, no_such_bucket}
use s3lite.S3.Lock.{
  DefaultRetentionXml, ObjectLockRuleXml, ObjectLockConfigurationXml, Formats, LockResponse,
  lock_configuration_body, bucket_resource, malformed, is_text, parse_mode, mode_to_str, map_err,
  answer_ok, map_meta_err,
}

-- `existing.object_lock.map(|c| c.enabled).unwrap_or(false)`
abbrev pub was_enabled : Option ObjectLockConfig → Bool
was_enabled none = false
was_enabled (some c) = c.enabled

-- `xml.object_lock_enabled.as_deref() == Some("Enabled")`
abbrev pub says_enabled : Option Bytes → Bool
says_enabled none = false
says_enabled (some text) = is_text text (bytes "Enabled")

-- `xml.rule.and_then(|r| r.default_retention)`
abbrev rule_retention : Option ObjectLockRuleXml → Option DefaultRetentionXml
rule_retention none = none
rule_retention (some r) = r.default_retention

-- `.map(|d| Ok(..)).transpose()`
abbrev read_default : Option DefaultRetentionXml → Result S3Error (Option DefaultRetention)
read_default none = ok none
read_default (some d) = do
  mode ← parse_mode d.mode
  ok (some (record { mode = mode; days = d.days; years = d.years }))

abbrev no_bucket : Bytes → S3Error
no_bucket bucket =
    with_resource (new_error no_such_bucket (bytes "bucket does not exist"))
      (bucket_resource bucket)

module _ (e : Engine) (f : Formats) where
  unfoldable pub lock_config_plan : Db e → Bytes → Bytes → Result S3Error ObjectLockConfig
  lock_config_plan db bucket body = do
    xml ←
        map_err (malformed f (bytes "ObjectLockConfiguration") (bucket_resource bucket))
          (f.read_lock_configuration body)
    found ← map_err (map_meta_err f) (handle_get_bucket e db bucket)
    existing ← ok_or found (no_bucket bucket)
    if says_enabled xml.object_lock_enabled && not (was_enabled existing.object_lock)
        then err (
            with_resource
              (new_error invalid_request (
                bytes
                  "Object Lock must be enabled at bucket creation (x-amz-bucket-object-lock-enabled)"))
              (bucket_resource bucket))
        else do
          default ← read_default (rule_retention xml.rule)
          ok (record {
            enabled = was_enabled existing.object_lock || says_enabled xml.object_lock_enabled;
            default_retention = default;
          })

  abbrev write_config :
      Db e
      → List Message
      → Bytes
      → Result S3Error ObjectLockConfig
      → Result S3Error LockResponse × Db e
  write_config db between bucket (err x) = (err x, db)
  write_config db between bucket (ok cfg) =
      answer_ok (map_meta_err f)
        (handle_update_bucket_object_lock e (run e db between) bucket (some cfg))

  -- `put_bucket_object_lock_config`
  unfoldable pub put_bucket_object_lock_config :
      Db e → List Message → Bytes → Bytes → Result S3Error LockResponse × Db e
  put_bucket_object_lock_config db between bucket body =
      write_config db between bucket (lock_config_plan db bucket body)

  -- `cfg.object_lock.unwrap_or_default()`
  abbrev or_default : Option ObjectLockConfig → ObjectLockConfig
  or_default none = record { enabled = false; default_retention = none }
  or_default (some c) = c

  abbrev rule_xml : Option DefaultRetention → Option ObjectLockRuleXml
  rule_xml none = none
  rule_xml (some d) = some (record {
    default_retention =
        some (record { mode = some (mode_to_str d.mode); days = d.days; years = d.years });
  })

  abbrev config_xml : ObjectLockConfig → ObjectLockConfigurationXml
  config_xml c = record {
    object_lock_enabled = if c.enabled then some (bytes "Enabled") else none;
    rule = rule_xml c.default_retention;
  }

  -- `get_bucket_object_lock_config`
  unfoldable pub get_bucket_object_lock_config : Db e → Bytes → Result S3Error LockResponse
  get_bucket_object_lock_config db bucket = do
    found ← map_err (map_meta_err f) (handle_get_bucket e db bucket)
    cfg ← ok_or found (no_bucket bucket)
    ok (lock_configuration_body (config_xml (or_default cfg.object_lock)))

-- A day, in the nanoseconds of `Time`.
abbrev pub day : ℕ
day = 24 * 60 * 60 * 10 ^ 9

-- `now + Duration::days(..)`, of the days or of the years of 365 days.
abbrev retain_from : Time → Option ℕ → Option ℕ → Option Time
retain_from now (some days) years = some (now + days * day)
retain_from now none (some years) = some (now + years * 365 * day)
retain_from now none none = none

abbrev default_lock : Time → DefaultRetention → Option ObjectLock
default_lock now d = elim (retain_from now d.days d.years) [
  | none ↦ none
  | some t ↦
      some (record {
        retention = some (record { mode = d.mode; retain_until = t });
        legal_hold = false;
      })
]

abbrev default_of : Time → Option DefaultRetention → Option ObjectLock
default_of now none = none
default_of now (some d) = default_lock now d

-- `default_lock_for_bucket`, with the clock's value.
unfoldable pub default_lock_for_bucket : Option ObjectLockConfig → Time → Option ObjectLock
default_lock_for_bucket none now = none
default_lock_for_bucket (some c) now =
    if not c.enabled then none else default_of now c.default_retention
