-- ===== src/Tests/Server.antt =====
-- Queries as the page sends them, the links of a page in the middle, and a result whose title has tags.
use amigao.Base.{
  ℕ, false, ◌+◌, ◌-◌, ◌<◌, ◌≤◌, ◌≡◌, refl, none, some, ltb, if◌then◌else◌, [], ◌∷◌, ◌++◌, List, All,
  Bytes, length, codes, arith,
}
use amigao.Server.{parse_query, parse_results, links, links_within, parse_query-values}
use amigao.Values.{dfl_pages}
use amigao.Info.{ℤ, pos, negsuc}
use amigao.Search.{PlainSearchResult}
use amigao.Server.Page.{invalid_method, paging, results_page, print_f}
use amigao.Server.Printed.{IsVerbatim, HasVerbatim}
use amigao.Server.Tags.{tags, Plain, HasPlainUrl, result_tags}
use amigao.Server.Tagged.{results_page-tags, repeated, head_tags, list_tags, link_tags, end_tags}
use amigao.Server.Round.{serve, read_all}
use amigao.Server.Served.{serve-Holds, read_all_stuck}
use amigao.Server.{Request}
use amigao.Sql.Leases.{Holds}
use amigao.Tests.Weights.{read_digits}

-- A page of one result, whose title and contents would open tags.
abbrev one_result : PlainSearchResult
one_result = record {
  nodes =
      record {
        url = codes "a.org/";
        title = codes "<script>";
        contents = codes "<b>x</b>";
        html = [];
        last_time = codes "2020-01-01";
      }
      ∷ [];
}

requests :
    (parse_query (codes "q=a%20b")
      ≡ some (record { sentence = codes "a%20b"; start_page = none; results_per_page = none }))
    × (parse_query (codes "q=") ≡ none)
    × (links 9 20 ≡ (6, pos 12, 8, pos 10))
    × (links 20 20 ≡ (17, pos 20, 19, pos 1))
    × (links 32767 32767 ≡ (32764, negsuc 32765, 32766, negsuc 32767))
    × (results_page [] 32764 32767 one_result ≡ none)
    × (print_f false (codes "50%") ≡ none)
    × (print_f false (codes "5%%0") ≡ some (codes "5%0"))
    × (print_f false invalid_method ≡ some invalid_method)
unfolding parse_query parse_results links results_page paging print_f
requests = (refl, refl, refl, refl, refl, refl, refl, refl, refl)

links_within_example :
    (i : ℕ) × (j : ℕ) × (pre : ℕ) × (next : ℕ) × (links 9 20 ≡ (i, pos j, pre, pos next))
    × (0 < i)
    × (i ≤ 9)
    × (9 ≤ j)
    × (j ≤ 20)
    × (j < i + dfl_pages)
    × (pre ≡ (if ltb 1 9 then 9 - 1 else 20))
    × (next ≡ (if ltb 9 20 then 9 + 1 else 1))
links_within_example = links_within 9 20 (omega arith) (omega arith) (omega arith)

parse_query-values_example :
    parse_query (codes "q=ab&start_page=2&results_per_page=10")
    ≡ some (record {
      sentence = codes "ab";
      start_page = some (codes "2");
      results_per_page = some (codes "10");
    })
parse_query-values_example =
    parse_query-values b'a' b'2' b'1' (codes "b") [] (codes "0") (codes "q") (codes "start_page")
      (codes "results_per_page") (ground arith) (ground arith) (ground arith) (ground arith)
      (ground arith) (ground arith)

one_result-Plain : Plain (codes "ab") × All HasPlainUrl one_result.nodes
one_result-Plain = (ground arith, ground arith)

one_result-HasVerbatim : IsVerbatim (codes "ab") × All HasVerbatim one_result.nodes
one_result-HasVerbatim = (refl, ((refl, refl, refl, refl), tt))

results_page-tags_example :
    (page : Bytes) × (i : ℕ) × (j : ℕ) × (pre : ℕ) × (next : ℕ) × (results_page
        (codes "ab")
        1
        2
        one_result
      ≡ some page)
    × (print_f false page ≡ some page)
    × (links 1 2 ≡ (i, pos j, pre, pos next))
    × (tags page
        ≡ head_tags
          ++ (repeated (length one_result.nodes) result_tags
              ++ (list_tags ++ (repeated (j + 1 - i) link_tags ++ end_tags))))
results_page-tags_example =
    results_page-tags (codes "ab") 1 2 one_result (omega arith) (omega arith) (omega arith)
      one_result-HasVerbatim.0 one_result-HasVerbatim.1 one_result-Plain.0 one_result-Plain.1

abbrev read_nothing : Bytes → Bytes × ℤ
read_nothing text = (text, pos 0)

abbrev two_requests : List (Bytes × Bytes)
two_requests = (codes "GET", codes "q=ab") ∷ (codes "POST", []) ∷ []

serve-Holds_example :
    Holds 3 0 0
      (serve read_nothing read_digits (λ s. s ∷ []) (λ w. w) (λ u. u) 4096 [] two_requests)
serve-Holds_example =
    serve-Holds read_nothing read_digits (λ s. s ∷ []) (λ w. w) (λ u. u) 4096 two_requests []

-- Two pages that are asked for in vain.
abbrev asked : List Request
asked =
    record {
      sentence = codes "ab";
      start_page = some (codes "2");
      results_per_page = some (codes "10");
    }
    ∷ record { sentence = codes "cd"; start_page = some (codes "3"); results_per_page = none }
    ∷ []

read_all_stuck_example :
    All (λ numbers. numbers ≡ (pos 0, pos 0)) (read_all read_nothing (codes "zz") asked)
read_all_stuck_example = read_all_stuck read_nothing b'z' (λ text. refl) (codes "z") asked
