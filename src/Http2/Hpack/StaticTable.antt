-- ===== src/Http2/Hpack/StaticTable.antt =====
-- The static table of src/http/hpack.cpp (RFC 7541, appendix A).
use async_net.Base.{List, [], ◌∷◌, bytes}
use async_net.Http2.Hpack.Entry.{Entry, entry}

-- `hpack_static_table()`; the entry 0 is a placeholder.
unfoldable pub static_table : List Entry
static_table =
    entry (bytes "") (bytes "")
    ∷ entry (bytes ":authority") (bytes "")
    ∷ entry (bytes ":method") (bytes "GET")
    ∷ entry (bytes ":method") (bytes "POST")
    ∷ entry (bytes ":path") (bytes "/")
    ∷ entry (bytes ":path") (bytes "/index.html")
    ∷ entry (bytes ":scheme") (bytes "http")
    ∷ entry (bytes ":scheme") (bytes "https")
    ∷ entry (bytes ":status") (bytes "200")
    ∷ entry (bytes ":status") (bytes "204")
    ∷ entry (bytes ":status") (bytes "206")
    ∷ entry (bytes ":status") (bytes "304")
    ∷ entry (bytes ":status") (bytes "400")
    ∷ entry (bytes ":status") (bytes "404")
    ∷ entry (bytes ":status") (bytes "500")
    ∷ entry (bytes "accept-charset") (bytes "")
    ∷ entry (bytes "accept-encoding") (bytes "gzip, deflate")
    ∷ entry (bytes "accept-language") (bytes "")
    ∷ entry (bytes "accept-ranges") (bytes "")
    ∷ entry (bytes "accept") (bytes "")
    ∷ entry (bytes "access-control-allow-origin") (bytes "")
    ∷ entry (bytes "age") (bytes "")
    ∷ entry (bytes "allow") (bytes "")
    ∷ entry (bytes "authorization") (bytes "")
    ∷ entry (bytes "cache-control") (bytes "")
    ∷ entry (bytes "content-disposition") (bytes "")
    ∷ entry (bytes "content-encoding") (bytes "")
    ∷ entry (bytes "content-language") (bytes "")
    ∷ entry (bytes "content-length") (bytes "")
    ∷ entry (bytes "content-location") (bytes "")
    ∷ entry (bytes "content-range") (bytes "")
    ∷ entry (bytes "content-type") (bytes "")
    ∷ entry (bytes "cookie") (bytes "")
    ∷ entry (bytes "date") (bytes "")
    ∷ entry (bytes "etag") (bytes "")
    ∷ entry (bytes "expect") (bytes "")
    ∷ entry (bytes "expires") (bytes "")
    ∷ entry (bytes "from") (bytes "")
    ∷ entry (bytes "host") (bytes "")
    ∷ entry (bytes "if-match") (bytes "")
    ∷ entry (bytes "if-modified-since") (bytes "")
    ∷ entry (bytes "if-none-match") (bytes "")
    ∷ entry (bytes "if-range") (bytes "")
    ∷ entry (bytes "if-unmodified-since") (bytes "")
    ∷ entry (bytes "last-modified") (bytes "")
    ∷ entry (bytes "link") (bytes "")
    ∷ entry (bytes "location") (bytes "")
    ∷ entry (bytes "max-forwards") (bytes "")
    ∷ entry (bytes "proxy-authenticate") (bytes "")
    ∷ entry (bytes "proxy-authorization") (bytes "")
    ∷ entry (bytes "range") (bytes "")
    ∷ entry (bytes "referer") (bytes "")
    ∷ entry (bytes "refresh") (bytes "")
    ∷ entry (bytes "retry-after") (bytes "")
    ∷ entry (bytes "server") (bytes "")
    ∷ entry (bytes "set-cookie") (bytes "")
    ∷ entry (bytes "strict-transport-security") (bytes "")
    ∷ entry (bytes "transfer-encoding") (bytes "")
    ∷ entry (bytes "user-agent") (bytes "")
    ∷ entry (bytes "vary") (bytes "")
    ∷ entry (bytes "via") (bytes "")
    ∷ entry (bytes "www-authenticate") (bytes "")
    ∷ []
