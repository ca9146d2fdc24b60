-- ===== src/Route/Links/Contract.antt =====
-- What the comparison of links in the fields up to the flags tells.
use libnl.Prelude.{false, true, ◌≡◌, Bool, ℕ, All, refl, arith}
use libnl.Route.{number_same}
use libnl.Object.Diff.{has_attr, Flips, Joins}
use libnl.Route.Links.{Link, link_base, link_id_attrs}

-- Neither the index nor the family of a link differs from itself.
pub same :
    (a : Link)
    → All (λ (e : ℕ × Bool). has_attr link_id_attrs e.0 ≡ true → e.1 ≡ false) (link_base a a)
same a = (
  λ _. number_same a.l_index,
  (
    λ l. absurd (ground (arith, l)),
    (
      λ l. absurd (ground (arith, l)),
      (
        λ l. absurd (ground (arith, l)),
        (
          λ l. absurd (ground (arith, l)),
          (
            λ l. absurd (ground (arith, l)),
            (
              λ l. absurd (ground (arith, l)),
              (
                λ _. number_same a.l_family,
                (
                  λ l. absurd (ground (arith, l)),
                  (
                    λ l. absurd (ground (arith, l)),
                    (
                      λ l. absurd (ground (arith, l)),
                      (
                        λ l. absurd (ground (arith, l)),
                        (
                          λ l. absurd (ground (arith, l)),
                          (
                            λ l. absurd (ground (arith, l)),
                            (
                              λ l. absurd (ground (arith, l)),
                              (
                                λ l. absurd (ground (arith, l)),
                                (
                                  λ l. absurd (ground (arith, l)),
                                  (
                                    λ l. absurd (ground (arith, l)),
                                    (
                                      λ l. absurd (ground (arith, l)),
                                      (λ l. absurd (ground (arith, l)), tt),
                                    ),
                                  ),
                                ),
                              ),
                            ),
                          ),
                        ),
                      ),
                    ),
                  ),
                ),
              ),
            ),
          ),
        ),
      ),
    ),
  ),
)

pub flips : (a b : Link) → Flips link_id_attrs (link_base a b) (link_base b a)
flips a b = (
  refl,
  λ l h. ground arith,
  (
    refl,
    λ l h. absurd (ground (arith, l)),
    (
      refl,
      λ l h. absurd (ground (arith, l)),
      (
        refl,
        λ l h. absurd (ground (arith, l)),
        (
          refl,
          λ l h. absurd (ground (arith, l)),
          (
            refl,
            λ l h. absurd (ground (arith, l)),
            (
              refl,
              λ l h. absurd (ground (arith, l)),
              (
                refl,
                λ l h. ground arith,
                (
                  refl,
                  λ l h. absurd (ground (arith, l)),
                  (
                    refl,
                    λ l h. absurd (ground (arith, l)),
                    (
                      refl,
                      λ l h. absurd (ground (arith, l)),
                      (
                        refl,
                        λ l h. absurd (ground (arith, l)),
                        (
                          refl,
                          λ l h. absurd (ground (arith, l)),
                          (
                            refl,
                            λ l h. absurd (ground (arith, l)),
                            (
                              refl,
                              λ l h. absurd (ground (arith, l)),
                              (
                                refl,
                                λ l h. absurd (ground (arith, l)),
                                (
                                  refl,
                                  λ l h. absurd (ground (arith, l)),
                                  (
                                    refl,
                                    λ l h. absurd (ground (arith, l)),
                                    (
                                      refl,
                                      λ l h. absurd (ground (arith, l)),
                                      (refl, λ l h. absurd (ground (arith, l)), tt),
                                    ),
                                  ),
                                ),
                              ),
                            ),
                          ),
                        ),
                      ),
                    ),
                  ),
                ),
              ),
            ),
          ),
        ),
      ),
    ),
  ),
)

pub joins : (a b c : Link) → Joins link_id_attrs (link_base a b) (link_base b c) (link_base a c)
joins a b c = (
  refl,
  refl,
  λ l h h'. ground arith,
  (
    refl,
    refl,
    λ l h h'. absurd (ground (arith, l)),
    (
      refl,
      refl,
      λ l h h'. absurd (ground (arith, l)),
      (
        refl,
        refl,
        λ l h h'. absurd (ground (arith, l)),
        (
          refl,
          refl,
          λ l h h'. absurd (ground (arith, l)),
          (
            refl,
            refl,
            λ l h h'. absurd (ground (arith, l)),
            (
              refl,
              refl,
              λ l h h'. absurd (ground (arith, l)),
              (
                refl,
                refl,
                λ l h h'. ground arith,
                (
                  refl,
                  refl,
                  λ l h h'. absurd (ground (arith, l)),
                  (
                    refl,
                    refl,
                    λ l h h'. absurd (ground (arith, l)),
                    (
                      refl,
                      refl,
                      λ l h h'. absurd (ground (arith, l)),
                      (
                        refl,
                        refl,
                        λ l h h'. absurd (ground (arith, l)),
                        (
                          refl,
                          refl,
                          λ l h h'. absurd (ground (arith, l)),
                          (
                            refl,
                            refl,
                            λ l h h'. absurd (ground (arith, l)),
                            (
                              refl,
                              refl,
                              λ l h h'. absurd (ground (arith, l)),
                              (
                                refl,
                                refl,
                                λ l h h'. absurd (ground (arith, l)),
                                (
                                  refl,
                                  refl,
                                  λ l h h'. absurd (ground (arith, l)),
                                  (
                                    refl,
                                    refl,
                                    λ l h h'. absurd (ground (arith, l)),
                                    (
                                      refl,
                                      refl,
                                      λ l h h'. absurd (ground (arith, l)),
                                      (refl, refl, λ l h h'. absurd (ground (arith, l)), tt),
                                    ),
                                  ),
                                ),
                              ),
                            ),
                          ),
                        ),
                      ),
                    ),
                  ),
                ),
              ),
            ),
          ),
        ),
      ),
    ),
  ),
)
