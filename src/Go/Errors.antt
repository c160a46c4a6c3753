-- ===== src/Go/Errors.antt =====
-- Error values of Go. The sentinels are those that internal/queue/queue.go and
-- internal/storage/storage.go declare with `errors.New`, one constructor for each variable, since
-- `errors.Is` compares identities and not texts.
use jack_service.Common.{String, Bool, true, false}
use jack_service.Common.Text.{◌+++◌}

pub data Sentinel : Type 0 where
  queue_unavailable job_too_large invalid_job not_found already_exists : Sentinel

-- `text` is an error with no cause; `wrapped` is `fmt.Errorf` with one `%w` between two texts.
pub data Error : Type 0 where
  sentinel : Sentinel → Error
  text : String → Error
  wrapped : String → Error → String → Error

abbrev pub sentinel_text : Sentinel → String
sentinel_text queue_unavailable = "queue backend unavailable"
sentinel_text job_too_large = "job payload exceeds maximum size"
sentinel_text invalid_job = "invalid job"
sentinel_text not_found = "not found"
sentinel_text already_exists = "already exists"

-- err.Error()
unfoldable pub error_text : Error → String
error_text (sentinel s) = sentinel_text s
error_text (text t) = t
error_text (wrapped before cause after) = before +++ (error_text cause +++ after)

abbrev same_sentinel : Sentinel → Sentinel → Bool
same_sentinel queue_unavailable queue_unavailable = true
same_sentinel job_too_large job_too_large = true
same_sentinel invalid_job invalid_job = true
same_sentinel not_found not_found = true
same_sentinel already_exists already_exists = true
same_sentinel _ _ = false

-- errors.Is(err, sentinel)
abbrev pub error_is : Error → Sentinel → Bool
error_is (sentinel s) target = same_sentinel s target
error_is (text t) target = false
error_is (wrapped before cause after) target = error_is cause target
