-- ===== src/Update/Phase.antt =====
-- The phases of an update: UpdateStatePhase of internal/application/update.go, lines 74-89.
use redlaunch.Base.{Text, codes}

abbrev pub preparing : Text
preparing = codes "preparing"

abbrev pub downloading : Text
downloading = codes "downloading"

abbrev pub verified : Text
verified = codes "verified"

abbrev pub loaded : Text
loaded = codes "loaded"

abbrev pub restart_queued : Text
restart_queued = codes "restart-queued"

abbrev pub recreating : Text
recreating = codes "recreating"

abbrev pub verifying : Text
verifying = codes "verifying"

abbrev pub complete : Text
complete = codes "complete"

abbrev pub failed : Text
failed = codes "failed"

abbrev pub uncertain : Text
uncertain = codes "uncertain"
