-- ===== src/System/Reachable.antt =====
-- What holds in every state that the process can reach.
use open_blocklist.Base.{
  Bytes, codes, Option, none, some, Bool, true, false, not, List, [], ◌∷◌, if◌then◌else◌, refl,
  subst,
}
use open_blocklist.Base.Int.{ℤ}
use open_blocklist.State.{App, BlockEntry, Go}
use open_blocklist.IpTable.{ip_table_lookup}
use open_blocklist.IpTable.Laws.{ip_table_lookup-SameData}
use open_blocklist.Dns.{
  QueryIp, address, malformed, panics, QType, type_a, type_aaaa, type_ptr, other_type, Question,
  Reply, answer_entry, answer_ip, answer_address, answer_question, handle_dns_request,
  rbl_query_to_ip, ptr_query_to_ip, rbl_zone, a_record, ptr_text, count_wrong_zone, reply, refused,
}
use open_blocklist.System.{
  IsConsistent, Step, looked_up, authorized, was_put, was_deleted, network_put, network_deleted,
  asked, ran, round_ended, line_came, network_line_came, called, polled, Reaches, here, further,
}
use open_blocklist.System.Keeps.{IsConsistent-same}
use open_blocklist.System.Handlers.{
  handle_lookup-IsConsistent, handle_auth-IsConsistent, handle_put-IsConsistent,
  handle_delete-IsConsistent, handle_put_network-IsConsistent, handle_delete_network-IsConsistent,
  run_task-IsConsistent,
}
use open_blocklist.System.Rounds.{
  expiration_round-IsConsistent, watch_line-IsConsistent, cidr_watch_line-IsConsistent,
}
use open_blocklist.System.Listeners.{listen-IsConsistent}
use open_blocklist.System.Decisions.{crowd_sec_round-IsConsistent}

-- The process behind an answer, where there is one.
abbrev IsConsistentAnswer : Option (App × Reply) → Type 0
IsConsistentAnswer none = Unit {0}
IsConsistentAnswer (some (app, reply)) = IsConsistent app

module _ (is_sub_domain : Bytes → Bytes → Bool) (now : ℤ) where
  answer_entry-IsConsistent :
      (text : BlockEntry → Bytes) (app : App) (e : Option BlockEntry)
      → IsConsistent app
      → IsConsistent (answer_entry text (app, e)).0
  unfolding answer_entry
  answer_entry-IsConsistent text app none h = IsConsistent-same app _ refl refl h
  answer_entry-IsConsistent text app (some e) h = IsConsistent-same app _ refl refl h

  answer_ip-IsConsistentAnswer :
      (text : BlockEntry → Bytes) (ip : QueryIp) (app : App)
      → IsConsistent app
      → IsConsistentAnswer (answer_ip now text ip app)
  unfolding answer_ip
  answer_ip-IsConsistentAnswer text (address ip) app h =
      let same = ip_table_lookup-SameData now ip app in
      let (app', e) = ip_table_lookup now ip app in
      answer_entry-IsConsistent text app' e
        (IsConsistent-same app app' same.ip_table same.cidr_table h)
  answer_ip-IsConsistentAnswer text malformed app h = IsConsistent-same app _ refl refl h
  answer_ip-IsConsistentAnswer text panics app h = tt

  refused_or-IsConsistentAnswer :
      (outside : Bool) (app : App) (o : Option (App × Reply))
      → IsConsistent app
      → IsConsistentAnswer o
      → IsConsistentAnswer (if outside then some (count_wrong_zone app, reply refused []) else o)
  unfolding count_wrong_zone
  refused_or-IsConsistentAnswer true app o h ho = IsConsistent-same app _ refl refl h
  refused_or-IsConsistentAnswer false app o h ho = ho

  answer_address-IsConsistentAnswer :
      (name : Bytes) (app : App)
      → IsConsistent app
      → IsConsistentAnswer (answer_address is_sub_domain now name app)
  unfolding answer_address
  answer_address-IsConsistentAnswer name app h =
      refused_or-IsConsistentAnswer (not (is_sub_domain rbl_zone name)) app
        (answer_ip now (a_record name) (rbl_query_to_ip name) app) h
        (answer_ip-IsConsistentAnswer (a_record name) (rbl_query_to_ip name) app h)

  answer_question-IsConsistentAnswer :
      (name : Bytes) (qtype : QType) (app : App)
      → IsConsistent app
      → IsConsistentAnswer (answer_question is_sub_domain now name qtype app)
  unfolding answer_question
  answer_question-IsConsistentAnswer name type_a app h =
      answer_address-IsConsistentAnswer name app h
  answer_question-IsConsistentAnswer name type_aaaa app h =
      answer_address-IsConsistentAnswer name app h
  answer_question-IsConsistentAnswer name type_ptr app h =
      refused_or-IsConsistentAnswer (not (is_sub_domain (codes "in-addr.arpa.") name)) app
        (answer_ip now (ptr_text name) (ptr_query_to_ip name) app) h
        (answer_ip-IsConsistentAnswer (ptr_text name) (ptr_query_to_ip name) app h)
  answer_question-IsConsistentAnswer name other_type app h = IsConsistent-same app _ refl refl h

  handle_dns_request-IsConsistentAnswer :
      (qs : List Question) (app : App)
      → IsConsistent app
      → IsConsistentAnswer (handle_dns_request is_sub_domain now qs app)
  unfolding handle_dns_request
  handle_dns_request-IsConsistentAnswer [] app h = IsConsistent-same app _ refl refl h
  handle_dns_request-IsConsistentAnswer (q ∷ qs) app h =
      answer_question-IsConsistentAnswer q.name q.qtype app h

module _ (go : Go) (is_sub_domain : Bytes → Bytes → Bool) where
  Step-IsConsistent :
      {app app' : App} → Step go is_sub_domain app app' → IsConsistent app → IsConsistent app'
  Step-IsConsistent {app} (looked_up t r) h = handle_lookup-IsConsistent go t r app h
  Step-IsConsistent {app} (authorized t r) h = handle_auth-IsConsistent go t r app h
  Step-IsConsistent {app} (was_put t r) h = handle_put-IsConsistent go t r app h
  Step-IsConsistent {app} (was_deleted r) h = handle_delete-IsConsistent go r app h
  Step-IsConsistent {app} (network_put t r) h = handle_put_network-IsConsistent go t r app h
  Step-IsConsistent {app} (network_deleted r) h = handle_delete_network-IsConsistent go r app h
  Step-IsConsistent {app} (asked now qs reply answered) h =
      subst IsConsistentAnswer answered
        (handle_dns_request-IsConsistentAnswer is_sub_domain now qs app h)
  Step-IsConsistent {app} (ran before behind task started) h =
      run_task-IsConsistent go task _ (IsConsistent-same app _ refl refl h)
  Step-IsConsistent {app} (round_ended now) h = expiration_round-IsConsistent go now app h
  Step-IsConsistent {app} (line_came line) h = watch_line-IsConsistent go line app h
  Step-IsConsistent {app} (network_line_came line) h = cidr_watch_line-IsConsistent go line app h
  Step-IsConsistent {app} (called routes rt c answer same answered) h =
      listen-IsConsistent routes rt c answer app _ answered h
  Step-IsConsistent {app} (polled clocks fetched startup) h =
      crowd_sec_round-IsConsistent go clocks fetched startup app h

  -- From a process whose tables are consistent (each address once, its entry carrying it; each
  -- network once) only such processes are reached, by the HTTP and DNS handlers and requests on any listener, the goroutines that
  -- lookups started, the rounds of the worker and of CrowdSec and the lines of both watches, in
  -- whatever order they come.
  pub Reaches-IsConsistent :
      {app app' : App} → Reaches go is_sub_domain app app' → IsConsistent app → IsConsistent app'
  Reaches-IsConsistent here h = h
  Reaches-IsConsistent (further before step) h =
      Step-IsConsistent step (Reaches-IsConsistent before h)
