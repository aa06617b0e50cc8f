-- ===== src/Tests/Including.antt =====
-- Two servers that are asked at once.
use listserver.Base.{
  Distinct, List, Text, [], arith, codes, decisions, false, if◌then◌else◌, int_eq, map, nat_eq,
  none, pos, refl, some, suc, text_eq, true, zero, ℕ, ◌==◌, ◌∷◌, ◌≡◌,
}
use listserver.Db.Model.{QueryOptions}
use listserver.Inclsrv.{
  Cache, CachedSessionInfos, SessionServerResponse, Ttls, Upstream, alias_or_id,
  cached_fetch_server_session_list, fetch_filtered_session_lists, fetch_server_session_list,
  fetch_with, filter_session_list, get_cached, put_cached, to_session_info,
}
use listserver.Inclsrv.Fetching.{Web}
use listserver.Inclsrv.Goroutines.{
  Fetching, Steps, after_look, after_send, ended, gather, get_elem?, here, looks, onward, put_at,
  sends, start_fetching,
}
use listserver.Inclsrv.Goroutines.Run.{fetching-order}
use listserver.Inclsrv.Kept.{Visit, cached_fetch-once, visited}
use listserver.Strings.{contains}

abbrev first_url : Text
first_url = codes "a"

abbrev second_url : Text
second_url = codes "b"

abbrev two_urls : List Text
two_urls = first_url ∷ second_url ∷ []

abbrev listed_drawing : SessionServerResponse
listed_drawing = record {
  id = codes "x";
  alias = [];
  protocol = codes "dp:4.24.0";
  title = codes "Drawing";
  user_count = pos 1;
  max_user_count = pos 5;
  has_password = false;
  nsfm = false;
  persistent = false;
  size = pos 0;
  founder = codes "ann";
  start_time = [];
  closed = false;
  active_drawing_user_count = pos 1;
  allow_web = false;
}

-- Both answer; the first has a session.
abbrev busy : Upstream
busy = record {
  status = λ url. some (record { hostname = url; port = pos 27750 });
  sessions =
      λ url. if url == codes "a/sessions/?listed=true" then some (listed_drawing ∷ []) else some [];
}

abbrev ttls : Ttls
ttls = record { cache_ttl = pos 10; status_cache_ttl = pos 60 }

abbrev everything : QueryOptions
everything = record { title = []; nsfm = true; protocol = [] }

abbrev start : Fetching
start = start_fetching []

-- The second server answers first.
abbrev s1 : Fetching
s1 = after_look busy ttls 100 everything two_urls 0 first_url start

abbrev s2 : Fetching
s2 = after_look busy ttls 100 everything two_urls 1 second_url s1

abbrev s3 : Fetching
s3 = after_send busy ttls 100 everything two_urls 1 second_url none s2

abbrev s4 : Fetching
s4 = after_send busy ttls 100 everything two_urls 0 first_url none s3

both_answer : Steps busy ttls 100 everything two_urls start s4
unfolding get_elem? put_at after_look after_send get_cached put_cached decisions
both_answer =
    onward start s3 s4
      (onward start s2 s3
        (onward start s1 s2 (onward start start s1 (here start) (looks start 0 first_url refl refl))
          (looks s1 1 second_url refl refl))
        (sends s2 1 second_url none refl refl))
      (sends s3 0 first_url none refl refl)

two_urls-Distinct : Distinct (λ u. u) two_urls
two_urls-Distinct = (((λ e. ground arith), tt), (tt, tt))

all_ended : (i : ℕ) (url : Text) → get_elem? two_urls i ≡ some url → s4.goroutines i ≡ ended
unfolding get_elem? put_at after_look after_send decisions
all_ended zero url e = refl
all_ended (suc zero) url e = refl
all_ended (suc (suc i)) url e = cc

fetching-order_example :
    gather two_urls 0 s4.results
    ≡ (fetch_filtered_session_lists busy ttls 100 everything two_urls []).0
fetching-order_example =
    fetching-order busy ttls 100 everything two_urls two_urls-Distinct [] s4 both_answer all_ended

titles_test : map (λ s. s.title) (gather two_urls 0 s4.results) ≡ codes "Drawing" ∷ []
unfolding gather after_look after_send put_at fetch_with get_cached put_cached
    fetch_server_session_list to_session_info alias_or_id filter_session_list contains decisions
titles_test = refl

-- The first server is asked, then the second, and the first again, which is down by then.
abbrev down : Upstream
down = record { status = λ url. none; sessions = λ url. none }

abbrev kept_entry : CachedSessionInfos
unfolding to_session_info decisions
kept_entry = record {
  time = 100;
  host = codes "a/status/";
  port = pos 27750;
  session_info = to_session_info (codes "a/status/") (pos 27750) listed_drawing ∷ [];
}

abbrev after_first : Cache
unfolding to_session_info decisions
after_first = (first_url, kept_entry) ∷ []

abbrev in_between : List Visit
in_between = record { up = busy; at = 103; url = second_url } ∷ []

cached_fetch-once_example :
    cached_fetch_server_session_list down ttls 105 first_url (visited ttls in_between after_first)
    ≡ (some kept_entry.session_info, visited ttls in_between after_first)
unfolding cached_fetch_server_session_list decisions kept_entry after_first alias_or_id
cached_fetch-once_example =
    cached_fetch-once 10 (pos 60) first_url kept_entry busy 100 [] kept_entry.session_info
      (record { up = down; at = 105; url = first_url }) in_between (omega arith) refl refl
      (omega arith)

-- A server that answers everything with an empty body, and its decoder.
abbrev plain_web : Web
plain_web = record {
  get = λ url. some (record { status = 200; body = some [] });
  decode_status = λ status body. some status;
  decode_sessions = λ session body. some [];
}
