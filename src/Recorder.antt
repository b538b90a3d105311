-- ===== src/Recorder.antt =====
-- pkg/recorder/recorder.go: events with a title-cased reason, normal or warning.
use minio_bucket_controller.Base.{String, ◌<>◌, Bool, true, false, Option, none, some}
use minio_bucket_controller.Api.Object.{Object}
use minio_bucket_controller.Libraries.{Libraries}
use minio_bucket_controller.Program.{Program, normal, warning, ret, ask, record_event}

module _ (lib : Libraries) where
  open lib use {title}

  -- `Event`, and `Eventf` with its message formatted
  unfoldable pub event : Object → String → String → Program (Unit {0})
  event o reason message = ask (record_event o normal (title reason) message)

  -- `Warn`, and `Warnf` with its message formatted
  unfoldable pub warn : Object → String → String → Program (Unit {0})
  warn o reason message = ask (record_event o warning (title reason) message)

  -- `EmitEvent`; the error is given by its text.
  unfoldable pub emit_event : Object → String → Option String → Bool → Program (Unit {0})
  unfolding event warn
  emit_event o op none true = ret tt
  emit_event o op none false = event o (op <> "Success") (op <> " success")
  emit_event o op (some text) ignore_success = warn o (op <> "Failure") text
