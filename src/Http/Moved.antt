-- ===== src/Http/Moved.antt =====
-- The moves of Client, nstl/nstl/http_client.cpp.
use nstl.Prelude.{
  ℕ, ◌≡◌, refl, sym, ap, ◌∙◌, inl, inr, Bool, false, Option, none, some, List, [], ◌∷◌, ◌++◌,
  nstl_exception, Result, ok, err,
}
use nstl.Http.{
  Setting, Curl, Client, fresh, first_settings, set_all, constructed, construct_on, make_client,
  assign, transfer, get_url, post_url, get_settings, post_settings,
}
use nstl.Http.Calls.{
  add_header, url_encode, url_decode, reset_client, set_hdr_cb, minimum_bandwidth, error_view,
  reset_hdrs, valid_client,
}
use nstl.Http.Options.{OptionLaws, Set, set_all-Set}

module _ (lib : Curl) where
  -- The members that need the handle throw, and leave the object as it is; the two others change
  -- nothing and find no handle.
  abbrev pub Throws : Client lib → Type 0
  Throws client =
      ((keepcnt : Bool) (address : Option (List ℕ)) (text : List ℕ) (timeout : ℕ) (verify : Bool)
        → (get_url lib keepcnt client address timeout verify ≡ (err nstl_exception, [], client))
          × (post_url lib keepcnt client address text timeout verify
              ≡ (err nstl_exception, [], client)))
      × ((text : Option (List ℕ)) → add_header lib client text ≡ err nstl_exception)
      × ((text : List ℕ)
          → (url_encode lib client text ≡ err nstl_exception)
            × (url_decode lib client text ≡ err nstl_exception))
      × (reset_client lib client ≡ err nstl_exception)
      × ((cb : Bool) → set_hdr_cb lib client cb ≡ err nstl_exception)
      × ((period : Option ℕ) (bandwidth : ℕ)
          → minimum_bandwidth lib client period bandwidth ≡ err nstl_exception)
      × ((error : List ℕ) → error_view lib client error ≡ err nstl_exception)
      × (reset_hdrs lib client ≡ client)
      × (valid_client lib client ≡ false)

  transfer_none :
      (keepcnt : Bool) (settings : List Setting) (client other : Client lib)
      (address : Option (List ℕ)) (timeout : ℕ) (verify : Bool)
      → transfer lib keepcnt settings (assign lib client other).1 address timeout verify
        ≡ (err nstl_exception, [], (assign lib client other).1)
  unfolding transfer assign
  transfer_none keepcnt settings client other none timeout verify = refl
  transfer_none keepcnt settings client other (some text) timeout verify = refl

  add_header_none :
      (client other : Client lib) (text : Option (List ℕ))
      → add_header lib (assign lib client other).1 text ≡ err nstl_exception
  unfolding add_header assign
  add_header_none client other none = refl
  add_header_none client other (some t) = refl

  url_none :
      (client other : Client lib) (text : List ℕ)
      → (url_encode lib (assign lib client other).1 text ≡ err nstl_exception)
        × (url_decode lib (assign lib client other).1 text ≡ err nstl_exception)
  unfolding url_encode url_decode assign
  url_none client other [] = (refl, refl)
  url_none client other (c ∷ s) = (refl, refl)

  minimum_bandwidth_none :
      (client other : Client lib) (period : Option ℕ) (bandwidth : ℕ)
      → minimum_bandwidth lib (assign lib client other).1 period bandwidth ≡ err nstl_exception
  unfolding minimum_bandwidth assign
  minimum_bandwidth_none client other none bandwidth = refl
  minimum_bandwidth_none client other (some p) bandwidth = refl

  -- A move gives the handle, the headers and the callback to the other object. Of the one that was
  -- moved from, get, post, add_header, url_encode, url_decode, reset, setHdrCb, minimumBandwidth and
  -- error_view throw and change nothing, reset_hdrs changes nothing, and valid is false. The speed limit does not
  -- move: the object that is moved to keeps its own.
  pub assign-Throws :
      (client other : Client lib)
      → let (mine, rest) = assign lib client other in
        (mine ≡ record other { bw_period = client.bw_period; bw_speed = client.bw_speed })
        × Throws rest
  unfolding assign get_url post_url reset_client set_hdr_cb error_view reset_hdrs valid_client
  assign-Throws client other = (
    refl,
    (
      λ keepcnt address text timeout verify. (
        transfer_none keepcnt (get_settings lib) client other address timeout verify,
        transfer_none keepcnt (post_settings lib text) client other address timeout verify,
      ),
      add_header_none client other,
      url_none client other,
      refl,
      λ cb. refl,
      minimum_bandwidth_none client other,
      λ error. refl,
      refl,
      refl,
    ),
  )

module _ (lib : Curl) (laws : OptionLaws lib) where
  constructed_lem :
      (wanted : List Setting) (start : lib.Easy) (made : Client lib)
      (answer : Result (Unit {0}) × lib.Easy)
      → Set lib laws wanted start answer
      → constructed lib answer ≡ ok made
      → (easy : lib.Easy) × (made.curl ≡ some easy)
        × (laws.options easy ≡ laws.options start ++ wanted)
  constructed_lem wanted start made (err thrown, set) all did = cc
  constructed_lem wanted start made (ok unit, set) (inl (done, all_set, kept)) did =
      let at : fresh lib (some set) ≡ made = cc in (set, ap (λ c. c.curl) (sym at), kept)
  constructed_lem wanted start made (ok unit, set)
        (inr (before, bad, behind, last, cut, all_set, refused, done, kept)) did =
      cc

  made_client :
      (is_verbose : Bool) (address : ℕ) (start : lib.Easy) (made : Client lib)
      → lib.easy_init ≡ some start
      → make_client lib address is_verbose ≡ ok made
      → (easy : lib.Easy) × (made.curl ≡ some easy)
        × (laws.options easy ≡ laws.options start ++ first_settings lib address is_verbose)
  unfolding make_client
  made_client is_verbose address start made init did =
      let wanted = first_settings lib address is_verbose in
      constructed_lem wanted start made (set_all lib wanted start)
        (set_all-Set lib laws wanted start)
        (sym (ap (construct_on lib address is_verbose) init) ∙ did)

  -- Where libcurl keeps the options that it accepted, an object that was constructed at an address
  -- and then moved leaves that address as the last error buffer of the handle that it gave away: the
  -- object that is moved to does not get its errors, and libcurl writes to the one that was moved
  -- from.
  pub assign-make_client :
      (is_verbose : Bool) (address : ℕ) (start : lib.Easy) (client made : Client lib)
      → lib.easy_init ≡ some start
      → make_client lib address is_verbose ≡ ok made
      → (easy : lib.Easy) × ((assign lib client made).0.curl ≡ some easy)
        × (laws.options easy ≡ laws.options start ++ first_settings lib address is_verbose)
  unfolding assign
  assign-make_client is_verbose address start client made init did =
      made_client is_verbose address start made init did
