-- ===== src/DnsCache/AnswerTests.antt =====
-- Runs of the cache's keys, `put` and `lookup`, and their theorems at concrete caches.
use dimsum.Prelude.{
  ℕ, zero, suc, ◌^◌, ◌<◌, ◌≡◌, refl, ◌⊎◌, inl, inr, Bool, true, false, Option, none, some, List, [],
  ◌∷◌, ◌++◌, map, arith, get_or, take, replicate, Result, ok, Returns, loop,
}
use dimsum.Prelude.Bytes.{slice, u16, u32, bytes_eq}
use dimsum.DnsWire.Errors.{WireError}
use dimsum.DnsWire.Labels.{wire_of}
use dimsum.DnsWire.Samples.{go_dev, reply}
use dimsum.DnsWire.Name.{fold_case, contains, decode_step, decode_name}
use dimsum.DnsWire.Header.{parse_header, parse_question, request_error}
use dimsum.DnsWire.Record.{
  no_edns, read_option, options_step, read_options, add_step, add_name, decode_checked,
}
use dimsum.DnsWire.Rdata.{
  text_step, params_step, bitmap_step, rdata_name, embedded_names, name_fields, text_data,
  service_data, signature_data, denial_data, validate_rdata,
}
use dimsum.DnsWire.Scanner.{
  init, section_step, next_section, read_opt, read_record, check_record, next,
}
use dimsum.DnsWire.Message.{
  Message, visit_found, visit_step, for_records, note_authentication, scan_message, parse_request,
}
use dimsum.DnsWire.Template.{
  Template, enclosing_from, enclosing, rescan_record, follow_links, negative_cname_authority,
  survey_record, template_ttl, patch_record, template_question, template_edns, prepare_template,
}
use dimsum.DnsWire.Build.{put8, put16, put32, overwrite}
use dimsum.DnsCache.Arena.{
  Shard, slot_at, bucket, scan, find_run, set_range, take_run, allocate, remove, evict_loop, evict,
  age,
}
use dimsum.DnsCache.Store.{copy_at, fill, make_room, new_shard}
use dimsum.DnsCache.Key.{Key, bypasses, new_key, matches_question}
use dimsum.DnsCache.Key.Distinct.{IsParsed, SameQuery, new_key-SameQuery}
use dimsum.DnsCache.Put.{Cache, holds_key, find_target, clear_way, choose_target, put_shard, put}
use dimsum.DnsCache.Lookup.{
  CacheResult, miss, patch_ttls, write_reply, serve_aged, serve, scan_bucket, same_key, lookup,
}
use dimsum.DnsCache.Lookup.Fresh.{IsReadable, IsPatch, table_of, blob_of}
use dimsum.DnsCache.Lookup.Serves.{CacheLooked, lookup-CacheLooked}

program : Unit {0}
unfolding slice u16 u32 bytes_eq loop contains decode_step decode_name parse_header parse_question
    request_error read_option options_step read_options add_step add_name decode_checked text_step
    params_step bitmap_step rdata_name embedded_names name_fields text_data service_data
    signature_data denial_data validate_rdata init section_step next_section read_opt read_record
    check_record next visit_found visit_step for_records note_authentication scan_message
    parse_request enclosing_from enclosing rescan_record follow_links negative_cname_authority
    survey_record template_ttl patch_record template_question template_edns prepare_template put8
    put16 put32 bucket scan find_run set_range take_run allocate remove evict_loop evict age copy_at
    fill make_room bypasses new_key matches_question holds_key find_target clear_way choose_target
    put_shard put patch_ttls write_reply serve_aged serve scan_bucket same_key lookup
program = tt

-- The parsed query.
abbrev asked : Message
asked = record {
  question = record {
    header = record {
      id = 7;
      flags = 256;
      questions = 1;
      answers = 0;
      authorities = 0;
      additionals = 0;
    };
    name = record {
      wire = wire_of go_dev ++ (0 ∷ []);
      canonical = map fold_case (wire_of go_dev ++ (0 ∷ []));
      end = 20;
      compressed = false;
    };
    qtype = 1;
    qclass = 1;
    start = 12;
    end = 24;
    original = wire_of go_dev ++ (0 ∷ 0 ∷ 1 ∷ 0 ∷ 1 ∷ []);
  };
  edns = no_edns;
  rcode = 0;
  has_authentication = false;
}

abbrev key_of : Option Key → Key
key_of (some k) = k
key_of none = record { bytes = []; size = 0 }

-- The key of the query in namespace 0, of policy generation 1.
abbrev asked_key : Key
asked_key = key_of (new_key asked 0 1 0)

asked_has_key : new_key asked 0 1 0 ≡ some asked_key
unfolding program
asked_has_key = refl

-- One shard of eight slots over four blocks.
abbrev empty : Cache
empty = record { shards = new_shard 8 4 ∷ []; max_negative = 300 }

abbrev put_done : Result WireError (Cache × Bool) → Cache
put_done (ok r) = r.0
put_done _ = empty

-- The reply is stored at second 100.
abbrev filled : Cache
filled = put_done (put empty asked_key reply 100_000_000_000 0)

abbrev answer : Result WireError (Cache × List ℕ × CacheResult) → List ℕ × CacheResult
answer (ok r) = (take r.2.size r.1, r.2)
answer _ = ([], miss)

abbrev filled_shard : Shard
filled_shard = get_or filled.shards 0 (new_shard 0 0)

-- The last empty slot of the bucket is the target.
reply_stored : ((slot_at filled_shard 7).lifetime ≡ 60) × ((slot_at filled_shard 7).key_len ≡ 39)
unfolding program
reply_stored = (refl, refl)

abbrev buffer : List ℕ
buffer = replicate 64 255

-- Ten seconds later the answer is served for fifty seconds more.
served : answer (lookup filled asked_key asked buffer 110_000_000_000 0 30 5) ≡ (
  overwrite reply 33 (50 ∷ []),
  record { hit = true; negative = false; stale = false; stale_age = 0; size = 40 },
)
unfolding program
served = refl

-- Five seconds past its lifetime it is served as stale, for five seconds.
served_stale : answer (lookup filled asked_key asked buffer 165_000_000_000 0 30 5) ≡ (
  overwrite reply 33 (5 ∷ []),
  record { hit = true; negative = false; stale = true; stale_age = 5; size = 40 },
)
unfolding program
served_stale = refl

-- At the stale window's end it is gone.
expired : answer (lookup filled asked_key asked buffer 190_000_000_000 0 30 5) ≡ ([], miss)
unfolding program
expired = refl

-- Another policy generation has another key.
other_generation :
    answer (lookup filled (key_of (new_key asked 0 2 0)) asked buffer 110_000_000_000 0 30 5)
    ≡ ([], miss)
unfolding program
other_generation = refl

new_key-SameQuery_example :
    SameQuery asked asked × (◌≡◌ {A = ℕ} 0 0) × (◌≡◌ {A = ℕ} 1 1) × (◌≡◌ {A = ℕ} 0 0)
new_key-SameQuery_example =
    let w : IsParsed asked = record {
      qtype = omega arith;
      qclass = omega arith;
      udp_size = omega arith;
      canonical = refl;
    } in
    let lt : (0 < 2 ^ 64) × (1 < 2 ^ 64) × (0 < 2 ^ 64) = (omega arith, omega arith, omega arith) in
    new_key-SameQuery asked asked 0 0 1 1 0 0 asked_key w w lt lt asked_has_key asked_has_key

abbrev info : Template
info = record { lifetime = 60; patches = 1; negative = false }

filled-IsPatch :
    (j : ℕ)
    → j < 1
    → IsPatch 40
        (table_of (slot_at filled_shard 7) (blob_of filled_shard (slot_at filled_shard 7)))
        j
unfolding program
filled-IsPatch zero lt = (omega arith, omega arith)
filled-IsPatch (suc j) lt = absurd (omega (arith, lt))

filled-IsReadable :
    (j : ℕ)
    → ((slot_at filled_shard j).allocated ≡ 0) ⊎ IsReadable filled_shard (slot_at filled_shard j)
unfolding program
filled-IsReadable zero = inl refl
filled-IsReadable (suc zero) = inl refl
filled-IsReadable (suc (suc zero)) = inl refl
filled-IsReadable (suc (suc (suc zero))) = inl refl
filled-IsReadable (suc (suc (suc (suc zero)))) = inl refl
filled-IsReadable (suc (suc (suc (suc (suc zero))))) = inl refl
filled-IsReadable (suc (suc (suc (suc (suc (suc zero)))))) = inl refl
filled-IsReadable (suc (suc (suc (suc (suc (suc (suc zero))))))) = inr (record {
  inside = omega arith;
  room = omega arith;
  header = omega arith;
  patches = filled-IsPatch;
})
filled-IsReadable (suc (suc (suc (suc (suc (suc (suc (suc j)))))))) = inl refl

lookup-CacheLooked_example :
    Returns
      (CacheLooked filled asked_key asked buffer 110_000_000_000 0 30)
      (lookup filled asked_key asked buffer 110_000_000_000 0 30 5)
unfolding program
lookup-CacheLooked_example =
    lookup-CacheLooked filled asked_key asked buffer 110_000_000_000 0 30 5 filled-IsReadable
      (omega arith) (omega arith)
