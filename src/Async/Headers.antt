-- ===== src/Async/Headers.antt =====
-- pkg/headers/headers.go: the header names of the wire format.
use reactive_commons_go.Base.{String}

abbrev pub reply_id : String
reply_id = "x-reply_id"

abbrev pub correlation_id : String
correlation_id = "x-correlation-id"

abbrev pub completion_only_signal : String
completion_only_signal = "x-empty-completion"

abbrev pub served_query_id : String
served_query_id = "x-serveQuery-id"

abbrev pub source_application : String
source_application = "sourceApplication"

abbrev pub reply_timeout_millis : String
reply_timeout_millis = "x-reply-timeout-millis"

abbrev pub reply_error : String
reply_error = "x-reply-error"
