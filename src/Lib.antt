-- ===== src/Lib.antt =====
-- hotchkiss-io, the web server of a personal site: a model of the parts that decide who may do what,
-- of its tree of content pages, and of its two background scanners.
--
-- A request passes, in this order, the API-key layer, the refresh of the session's role, the toll
-- for greylisted addresses and the authorization of mutations. Behind it, a sweep reads the request
-- log and greylists abusive addresses, a greylisted client clears itself by a proof of work, and a
-- daily scan checks the links of the pages. The pages are a tree in one table: handlers create, save,
-- move and delete them, and a page is shown only past the gates of all pages above it. Media are files
-- named by their content, served by unguessable keys past the gates of the items that share them.
--
-- Where each part is modelled (paths are from the repository's root):
--   src/db/dao/roles.rs                       Roles: Role, MinRole, from_stored, apply_write
--   src/db/dao/users.rs,
--   src/web/features/admin/users.rs           Users: create, set_user_role, delete_user
--   src/db/dao/api_keys.rs                    ApiKeys: authenticate, revoke, purge_revoked
--   src/web/authentication_state.rs,
--   src/web/session.rs                        Session: AuthenticationState, from_request_parts
--   src/web/middleware/*.rs                   Middleware, Greylist/Toll
--   src/web/router.rs                         Server: serve, the layers in their order
--   src/greylist/detection.rs                 Greylist/Detection: build_features, score
--   src/greylist/crawler.rs                   Greylist/Crawler: verify_crawler, verify
--   src/greylist/active_set.rs                Greylist/ActiveSet: GreylistSet
--   src/db/dao/greylist.rs                    Greylist/Table: upsert_auto, pin_manual, prune_expired
--   src/greylist/sweep.rs                     Greylist/Sweep: run_once
--   src/greylist/challenge.rs                 Greylist/Challenge: verify_answer, verify_clearance
--   src/web/features/challenge.rs             Greylist/Endpoint: verify_challenge
--   src/web/responder.rs                      Greylist/Toll: client_kind
--   src/web/util/next_url.rs                  NextUrl: safe_next
--   src/deadlinks/*.rs                        Deadlinks: Class, Classify, External, Internal, Extract,
--                                             Store, Scan, Walk
--   src/db/dao/content_pages.rs               Pages, Pages/Rows: the row, its gates, the statements
--   src/web/features/pages/write.rs           Pages/Write: create_page, update_page
--   src/web/features/pages/mod.rs             Pages/Handlers: get_page_path, delete_page_path
--   src/web/features/listing.rs               Pages/Listing: paginate
--   src/web/features/admin/pages.rs           Pages/Reorder: reorder_pages, publish_now, toggle_feature
--   src/web/util/slug.rs                      Slug: slugify, slug_new
--   src/web/util/category.rs                  Category: tags, toggle_featured
--   src/web/util/urlencode.rs                 Urlencode: urlencode
--   src/db/dao/media.rs,
--   src/web/features/media.rs                 Media: find_by_url_key_with_required_rank, serve_media_file
--   src/media/mod.rs                          Media/Store: pick_write_root, roots_status, resolve_path
--   src/coordinator/backup.rs                 Backup: pruned (prune_old_backups)
--   src/web/util/media_ref.rs                 Media/Reference: parse_cover_reference
--   src/web/util/route.rs                     Route: normalize_route
--   src/web/util/referer.rs                   Referer: normalize_referer, group_referers
-- Pages/History runs the handlers of pages one after the other.
-- Base, Sorting, Text, Int64 and Fallible carry what these share: list functions over native numbers, the
-- functions of str on texts as lists of code points, 64-bit integers, and fallible results.
--
-- A table is the list of its rows, and a statement on it is a function from list to list with the
-- statement's WHERE and ON CONFLICT written out. A time is a number of seconds, and of
-- nanoseconds where pages are dated. A hash map is a list in the order of first insertion. Every loop
-- is structural recursion, or recursion on an accessibility proof where a number is printed; the walk
-- of the page tree alone runs on fuel, one unit for each page and one more. Integers of the source are
-- natural numbers, except where a client chooses an i64 (the challenge, the order of pages, the page
-- of a listing): there they are two's complements below 2 ^ 64, and overflow wraps.
--
-- Parameters of the model: the hash of an API key, SHA-256 and HMAC, base64, the DNS resolver, the
-- HTTP client, the parsers of URLs, addresses, dates and markdown, Unicode's lowercase, SQLite's LIKE
-- and its order of stored dates, the queries on media that the link checks ask, the file system, and
-- whether a statement of a page's write, a read or write of a session, the write of a link's row or the
-- release of an address fails.
--
-- Not modelled: the other pages' handlers and templates, the markdown renderer, the uploads and embeds
-- of media, the request log, the percentiles of its latencies (floats), the coordinator's network
-- services and the snapshot of a backup, the passkey ceremony of the webauthn-rs crate, timers,
-- logging, and the copies of other projects' scripts.
pub mod Base
pub mod Sorting
pub mod Text
pub mod Int64
pub mod Roles
pub mod Users
pub mod Fallible
pub mod ApiKeys
pub mod Session
pub mod Middleware
pub mod Greylist
pub mod NextUrl
pub mod Server
pub mod Deadlinks
pub mod Backup
pub mod Category
pub mod Media
pub mod Pages
pub mod Referer
pub mod Route
pub mod Slug
pub mod Tests
pub mod Urlencode
