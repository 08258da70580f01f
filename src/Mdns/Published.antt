-- ===== src/Mdns/Published.antt =====
-- buffet/avahi_mdns_client.cc: what is published is what was asked for last.
use rockchip_android_system.Prelude.{
  Bool, ◌≡◌, refl, ap, ◌∙◌, subst, ◌==◌, ◌&&◌, true, false, Option, none, some, List, [], ◌∷◌,
  String, arith, eq_iff, is_empty, nat_eq, if◌then◌else◌, if_cases, option_cases, Holds,
}
use rockchip_android_system.Mdns.{
  Service, Avahi, same_texts, MdnsClient, new_client, publish_new, publish_txt, publish_service,
  stop_publishing, republish_service, on_avahi_client_state_update, Event, publish, stop,
  reinitialisation, state_update, handle, run_events,
}

same_texts_eq : (xs ys : List String) → same_texts xs ys ≡ true → xs ≡ ys
unfolding same_texts
same_texts_eq [] [] e = refl
same_texts_eq [] (y ∷ ys) e = ground (arith, e)
same_texts_eq (x ∷ xs) [] e = ground (arith, e)
same_texts_eq (x ∷ xs) (y ∷ ys) e = ground (arith, e, eq_iff x y, same_texts_eq xs ys)

module _ ⦃avahi : Avahi⦄ where
  -- The service in the members, if there is one.
  abbrev pub remembered : MdnsClient → Option Service
  remembered c =
      if is_empty c.prev_service_type
      then none
      else some
          (record { service_type = c.prev_service_type; port = c.prev_port; txt = c.txt_records })

  -- The service `o` is in the members, and the group publishes it if it is not lost, and nothing if
  -- there is none.
  abbrev pub Publishes : Bool → Option Service → MdnsClient → Type 0
  Publishes lost o c =
      (lost ≡ false → avahi.published c.group ≡ o)
      × (o ≡ none → avahi.published c.group ≡ none)
      × (remembered c ≡ o)

  -- What the events ask to be published.
  abbrev pub ask : Event → Option Service → Option Service
  ask (publish s) o = some s
  ask stop o = none
  ask reinitialisation o = o
  ask (state_update running) o = o

  abbrev pub asked : List Event → Option Service → Option Service
  asked [] o = o
  asked (e ∷ es) o = asked es (ask e o)

  -- Whether Avahi may have lost what is published: from a re-initialisation to the next report that
  -- Avahi is running, or to StopPublishing.
  abbrev pub lose : Event → Bool → Bool
  lose (publish s) lost = lost
  lose stop lost = false
  lose reinitialisation lost = true
  lose (state_update true) lost = false
  lose (state_update false) lost = lost

  abbrev pub lost : List Event → Bool → Bool
  lost [] b = b
  lost (e ∷ es) b = lost es (lose e b)

  publish_new-Publishes :
      (b : Bool) (s : Service) (c : MdnsClient)
      → s.service_type ≡ "_privet._tcp"
      → Holds (Publishes b (some s)) (publish_new s c)
  unfolding publish_new
  publish_new-Publishes b s c privet =
      option_cases (Holds (Publishes b (some s))) (avahi.add_service s (avahi.reset c.group)) _ _
        (λ gone. tt)
        (λ added e.
          option_cases (Holds (Publishes b (some s))) (avahi.commit added) _ _ (λ gone. tt)
            (λ committed f. (
              (λ h. avahi.published-commit s c.group added committed e f),
              (λ h. ground (arith, h)),
              rw privet refl,
            )))

  -- The members hold the service type and the port of `s`.
  published_lem :
      (s : Service) (o : Option Service) (c : MdnsClient)
      → s.service_type ≡ "_privet._tcp"
      → c.prev_port ≡ s.port
      → c.prev_service_type ≡ s.service_type
      → avahi.published c.group ≡ o
      → remembered c ≡ o
      → avahi.published c.group ≡ some (record s { txt = c.txt_records })
  published_lem s o c privet port type p r =
      let given : is_empty c.prev_service_type ≡ false = ap is_empty (type ∙ privet) in
      ground (arith, p, r, port, type, given)

  publish_txt-Publishes :
      (b : Bool) (s : Service) (o : Option Service) (c : MdnsClient)
      → s.service_type ≡ "_privet._tcp"
      → c.prev_port ≡ s.port
      → c.prev_service_type ≡ s.service_type
      → Publishes b o c
      → Holds (Publishes b (some s)) (publish_txt s c)
  unfolding publish_txt
  publish_txt-Publishes b s o c privet port type p =
      option_cases (Holds (Publishes b (some s))) (avahi.update_txt s.service_type s.txt c.group) _
        _ (λ gone. tt)
        (λ h e. (
          (λ kept.
              avahi.published-update_txt (record s { txt = c.txt_records }) s.txt c.group h
                (published_lem s o c privet port type (p.0 kept) p.2) e),
          (λ gone. ground (arith, gone)),
          ground (arith, port, type, ap is_empty (type ∙ privet)),
        ))

  publish_service-Publishes :
      (b : Bool) (s : Service) (o : Option Service) (c : MdnsClient)
      → Publishes b o c
      → Holds (Publishes b (some s)) (publish_service s c)
  unfolding publish_service
  publish_service-Publishes b s o c p =
      if_cases good (s.service_type == "_privet._tcp") _ _
        (λ e.
          let privet = (eq_iff s.service_type "_privet._tcp").0 e in
          if_cases good (nat_eq c.prev_port s.port && c.prev_service_type == s.service_type) _ _
            (λ same.
              let port : c.prev_port ≡ s.port = ground (arith, same) in
              let type : c.prev_service_type ≡ s.service_type =
                ground (arith, same, eq_iff c.prev_service_type s.service_type) in
              if_cases good (same_texts c.txt_records s.txt) _ _
                (λ t.
                  let texts = same_texts_eq c.txt_records s.txt t in
                  (
                    (λ kept.
                        let there = published_lem s o c privet port type (p.0 kept) p.2 in
                        ground (arith, there, texts)),
                    (λ gone. ground (arith, gone)),
                    (ground (arith, ap is_empty (type ∙ privet), port, type, texts)),
                  ))
                (λ t. publish_txt-Publishes b s o c privet port type p))
            (λ differs. publish_new-Publishes b s c privet))
        (λ e. tt)
    where
      good : Option MdnsClient → Type 0
      good = Holds (Publishes b (some s))

  stop_publishing-Publishes : (b : Bool) (c : MdnsClient) → Publishes b none (stop_publishing c)
  unfolding stop_publishing
  stop_publishing-Publishes b c =
      ((λ kept. avahi.published-reset c.group), (λ gone. avahi.published-reset c.group), refl)

  republish_service-Publishes :
      (b : Bool) (o : Option Service) (c : MdnsClient)
      → Publishes b o c
      → Holds (Publishes false o) (republish_service c)
  unfolding republish_service
  republish_service-Publishes b o c p =
      if_cases (Holds (Publishes false o)) (is_empty c.prev_service_type) _ _
        (λ e.
          let nothing : o ≡ none = ground (arith, e, p.2) in
          ((λ kept. ground (arith, nothing, p.1)), p.1, p.2))
        (λ e.
          subst (λ o. Holds (Publishes false o) (publish_service old (stop_publishing c)))
            (ground (arith, e, p.2))
            (publish_service-Publishes false old none (stop_publishing c)
              (stop_publishing-Publishes false c)))
    where
      old : Service
      old = record { service_type = c.prev_service_type; port = c.prev_port; txt = c.txt_records }

  handle-Publishes :
      (e : Event) (b : Bool) (o : Option Service) (c : MdnsClient)
      → Publishes b o c
      → Holds (Publishes (lose e b) (ask e o)) (handle e c)
  unfolding handle on_avahi_client_state_update
  handle-Publishes (publish s) b o c p = publish_service-Publishes b s o c p
  handle-Publishes stop b o c p = stop_publishing-Publishes false c
  handle-Publishes reinitialisation b o c p = (
    (λ kept. ground (arith, kept)),
    (λ gone. avahi.published-reinitialise c.group (p.1 gone)),
    p.2,
  )
  handle-Publishes (state_update true) b o c p = republish_service-Publishes b o c p
  handle-Publishes (state_update false) b o c p = p

  run_events-Publishes :
      (es : List Event) (b : Bool) (o : Option Service) (c : MdnsClient)
      → Publishes b o c
      → Holds (Publishes (lost es b) (asked es o)) (run_events es c)
  unfolding run_events
  run_events-Publishes [] b o c p = p
  run_events-Publishes (e ∷ es) b o c p =
      option_cases (Holds (Publishes (lost (e ∷ es) b) (asked (e ∷ es) o))) (handle e c) _ _
        (λ gone. tt)
        (λ d there.
          run_events-Publishes es (lose e b) (ask e o) d
            (subst (Holds (Publishes (lose e b) (ask e o))) there (handle-Publishes e b o c p)))

  -- From the construction on, whatever is published, stopped or reported by Avahi in whatever
  -- order, and however often Avahi is re-initialised, if no CHECK fails: unless a re-initialisation
  -- has come that neither a report that Avahi is running nor a StopPublishing has followed, Avahi
  -- publishes the service of the last PublishService that no StopPublishing has followed, with its
  -- port and records, and nothing if there is none.
  pub published-asked :
      (es : List Event) (c : MdnsClient)
      → run_events es new_client ≡ some c
      → lost es false ≡ false
      → avahi.published c.group ≡ asked es none
  unfolding new_client
  published-asked es c ran kept =
      (subst (Holds (Publishes (lost es false) (asked es none))) ran (
          run_events-Publishes es false none new_client
            ((λ h. avahi.published-new_group), (λ h. avahi.published-new_group), refl))).0
        kept
