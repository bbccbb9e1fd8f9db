-- ===== src/Http/Response/Status.antt =====
-- The status lines and content types of include/tools/response_cv.hpp and include/define.h.
use Prim.Native.String.{String}

-- enum class status_type
pub data StatusType : Type 0 where
  init switching_protocols ok created accepted no_content partial_content : StatusType
  multiple_choices moved_permanently moved_temporarily not_modified temporary_redirect : StatusType
  bad_request unauthorized forbidden not_found internal_server_error not_implemented : StatusType
  bad_gateway service_unavailable : StatusType

-- enum class content_type
pub data ContentType : Type 0 where
  string html json multipart urlencoded chunked octet_stream websocket unknown none : ContentType

unfoldable pub to_rep_string : StatusType → String
to_rep_string switching_protocols = "HTTP/1.1 101 Switching Protocals\r\n"
to_rep_string ok = "HTTP/1.1 200 OK\r\n"
to_rep_string created = "HTTP/1.1 201 Created\r\n"
to_rep_string accepted = "HTTP/1.1 202 Accepted\r\n"
to_rep_string no_content = "HTTP/1.1 204 No Content\r\n"
to_rep_string partial_content = "HTTP/1.1 206 Partial Content\r\n"
to_rep_string multiple_choices = "HTTP/1.1 300 Multiple Choices\r\n"
to_rep_string moved_permanently = "HTTP/1.1 301 Moved Permanently\r\n"
to_rep_string moved_temporarily = "HTTP/1.1 302 Moved Temporarily\r\n"
to_rep_string not_modified = "HTTP/1.1 304 Not Modified\r\n"
to_rep_string temporary_redirect = "HTTP/1.1 307 Temporary Redirect\r\n"
to_rep_string bad_request = "HTTP/1.1 400 Bad Request\r\n"
to_rep_string unauthorized = "HTTP/1.1 401 Unauthorized\r\n"
to_rep_string forbidden = "HTTP/1.1 403 Forbidden\r\n"
to_rep_string not_found = "HTTP/1.1 404 Not Found\r\n"
to_rep_string internal_server_error = "HTTP/1.1 500 Internal Server Error\r\n"
to_rep_string not_implemented = "HTTP/1.1 501 Not Implemented\r\n"
to_rep_string bad_gateway = "HTTP/1.1 502 Bad Gateway\r\n"
to_rep_string service_unavailable = "HTTP/1.1 503 Service Unavailable\r\n"
to_rep_string _ = "HTTP/1.1 501 Not Implemented\r\n"

unfoldable pub to_content_type_str : ContentType → String
to_content_type_str html = "Content-Type: text/html; charset=UTF-8\r\n"
to_content_type_str json = "Content-Type: application/json; charset=UTF-8\r\n"
to_content_type_str string = "Content-Type: text/plain; charset=UTF-8\r\n"
to_content_type_str multipart = "Content-Type: multipart/form-data; boundary="
to_content_type_str _ = ""
