-- ===== src/Http/Pages/Tests.antt =====
-- A page that no route fits.
use j7f.Base.{ℕ, ◌≡◌, refl, [], ◌++◌, codes, replicate}
use j7f.Strings.{trim_left}
use j7f.Http.Pages.{html, shtml, no_route}
use j7f.Http.Pages.Named.{no_route_page}

no_route_page_example :
    no_route {Value = ℕ} [] (record {
      request_uri = replicate 2 b'/' ++ (codes "a/b" ++ shtml);
      x_requested_with = codes "XMLHttpRequest";
    })
    ≡ html 200 (codes "a/b" ++ codes ".html")
no_route_page_example =
    no_route_page {Value = ℕ} [] 2 (codes "a/b") (codes "XMLHttpRequest") (unfold trim_left in refl)
